-- ===== src/Fat/Contents/Balance.antt =====
-- `FAT_delete_content` and `FAT_put_content` of src/kernel/filesystems/fat.c and the descriptor
-- that they open.
use cordell_os.Base.{
  ℕ, ◌≡◌, refl, sym, ◌⊎◌, inl, inr, Bool, true, false, Option, none, some, List, set,
  get_or-set_self,
}
use mathlib.Core.Path.{subst}
use cordell_os.Fat.Volume.{Volume}
use cordell_os.Fat.Content.{delete_clusters}
use cordell_os.Fat.Change.{Datetime, cluster_of, directory_remove}
use cordell_os.Fat.Directory.{directory_search}
use cordell_os.Fat.Contents.{
  Content, Table, get_content, Open, descriptor, no_slot, unsupported, no_such_path, search_error,
  bad_chain, chain_error, open_fuel, open_content, Deletion, deletion_fuel, delete_entry,
  delete_found, delete_opened, delete_content,
}
use cordell_os.Fat.Contents.Slots.{
  Returns, Returns-bind, Returns-then, Free, OpenedIn, release-set, open_content-table,
}
use cordell_os.Fat.Contents.Calls.{fatname2name, Put, put_new, put_found, put_opened, put_content}

-- The table is as it was, unless the walk along the chain did not come to an end.
abbrev pub KeepsTable : Table → Deletion × Table → Type 0
KeepsTable t (r, t') = (t' ≡ t) ⊎ (r ≡ deletion_fuel)

get_content-set :
    (t : Table) (fd : ℕ) (c : Content) → Free t fd → get_content (set t fd (some c)) fd ≡ some c
unfolding get_content
get_content-set t fd c free = get_or-set_self t fd (some c) none free.inside

module _ (t : Table) (fd : ℕ) (free : Free t fd) (c : Content) where
  abbrev taken : Table
  taken = set t fd (some c)

  delete_entry-table :
      (fuel : ℕ) (o : Option (Bool × Volume))
      → Returns (KeepsTable t) (delete_entry fuel taken fd c o)
  delete_entry-table fuel none = inr refl
  delete_entry-table fuel (some (false, w)) = inl (release-set t fd (some c) free)
  delete_entry-table fuel (some (true, w)) =
      Returns-bind (KeepsTable t) (directory_remove w c.meta fuel c.parent_cluster) _
        (λ r. inl (release-set t fd (some c) free))

  delete_found-table :
      (v : Volume) (fuel : ℕ)
      → Returns (KeepsTable t) (delete_found v fuel taken fd (get_content taken fd))
  delete_found-table v fuel =
      subst (λ o. Returns (KeepsTable t) (delete_found v fuel taken fd o))
        (sym (get_content-set t fd c free))
        (Returns-bind (KeepsTable t) (delete_clusters v fuel (cluster_of v.fat c.meta)) _
          (delete_entry-table fuel))

delete_opened-table :
    (v : Volume) (fuel : ℕ) (t : Table) (r : Open × Table)
    → OpenedIn t r
    → Returns (KeepsTable t) (delete_opened v fuel r)
delete_opened-table v fuel t (descriptor fd, t') (free, (c, e)) =
    subst (λ s. Returns (KeepsTable t) (delete_found v fuel s fd (get_content s fd))) (sym e)
      (delete_found-table t fd free c v fuel)
delete_opened-table v fuel t (no_slot, t') e = inl e
delete_opened-table v fuel t (unsupported, t') e = inl e
delete_opened-table v fuel t (no_such_path, t') e = inl e
delete_opened-table v fuel t (search_error, t') e = inl e
delete_opened-table v fuel t (bad_chain, t') e = inl e
delete_opened-table v fuel t (chain_error, t') e = inl e
delete_opened-table v fuel t (open_fuel, t') e = inl e

-- `FAT_delete_content` leaves the table of open contents as it was, whether it deletes the content or
-- fails at the path, at the chain or at the entry. This holds for each call that returns within its
-- fuel.
pub delete_content-table :
    (v : Volume) (has_memory : Bool) (fuel : ℕ) (path : List ℕ) (t : Table)
    → Returns (KeepsTable t) (delete_content v has_memory fuel path t)
unfolding delete_content
delete_content-table v has_memory fuel path t =
    Returns-then (OpenedIn t) (KeepsTable t) (open_content v has_memory fuel path t)
      (delete_opened v fuel) (open_content-table v has_memory fuel path t)
      (delete_opened-table v fuel t)

abbrev pub SameTable : Table → Put × Table → Type 0
SameTable t (r, t') = t' ≡ t

put_opened-table :
    (v : Volume) (clock : ℕ → Datetime) (fuel : ℕ) (e : List ℕ) (t : Table) (r : Open × Table)
    → OpenedIn t r
    → Returns (SameTable t) (put_opened v clock fuel e r)
put_opened-table v clock fuel e t (descriptor fd, t') (free, (c, same)) =
    subst (λ s. Returns (SameTable t) (put_found v clock fuel e s fd (get_content s fd))) (sym same)
      (subst (λ o. Returns (SameTable t) (put_found v clock fuel e (set t fd (some c)) fd o))
        (sym (get_content-set t fd c free))
        (Returns-bind (SameTable t)
          (directory_search v (fatname2name e) fuel (cluster_of v.fat c.meta)) _
          (λ found.
            Returns-bind (SameTable t) (put_new v clock fuel e (cluster_of v.fat c.meta) found) _
              (λ r. release-set t fd (some c) free))))
put_opened-table v clock fuel e t (no_slot, t') same = same
put_opened-table v clock fuel e t (unsupported, t') same = same
put_opened-table v clock fuel e t (no_such_path, t') same = same
put_opened-table v clock fuel e t (search_error, t') same = same
put_opened-table v clock fuel e t (bad_chain, t') same = same
put_opened-table v clock fuel e t (chain_error, t') same = same
put_opened-table v clock fuel e t (open_fuel, t') same = same

-- `FAT_put_content` leaves the table of open contents as it was, whether it adds the entry or fails.
-- This holds for each call that returns.
pub put_content-table :
    (v : Volume) (clock : ℕ → Datetime) (has_memory : Bool) (fuel : ℕ) (path e : List ℕ) (t : Table)
    → Returns (SameTable t) (put_content v clock has_memory fuel path e t)
unfolding put_content
put_content-table v clock has_memory fuel path e t =
    Returns-then (OpenedIn t) (SameTable t) (open_content v has_memory fuel path t)
      (put_opened v clock fuel e) (open_content-table v has_memory fuel path t)
      (put_opened-table v clock fuel e t)
