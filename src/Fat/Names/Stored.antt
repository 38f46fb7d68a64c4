-- ===== src/Fat/Names/Stored.antt =====
-- The name and the extension of a file that `FAT_open_content` of src/kernel/filesystems/fat.c stores.
use cordell_os.Base.{ℕ, Option, none, some, List, ltb, if◌then◌else◌, replicate}
use cordell_os.Ata.{◌>>=◌}
use cordell_os.Text.{strcpy, strncpy, strlen}
use cordell_os.Text.Token.{strtok}
use cordell_os.Fat.Directory.{copied}

-- The two tokens; `none` where one of them is NULL, which `strncpy` would read.
unfoldable pub split_name : List ℕ → Option (List ℕ × List ℕ)
split_name text = do
  (name, olds) ← strtok 32 text
  (extension, last) ← strtok 32 olds
  some (strncpy (replicate 8 0) name 8, strncpy (replicate 4 0) extension 4)

-- From the entry on. The text begins with the 11 bytes of the name and goes on with the attributes up
-- to the first 0; the copy has 13 bytes, and `none` is also a text that has no room there.
unfoldable pub stored_name : List ℕ → Option (List ℕ × List ℕ)
stored_name e = if ltb (strlen e) 13 then split_name (copied (strcpy (replicate 13 0) e)) else none
