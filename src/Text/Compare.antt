-- ===== src/Text/Compare.antt =====
-- The string functions against the texts that the strings hold.
use cordell_os.Base.{
  ℕ, zero, suc, ◌≡◌, refl, sym, ap, ◌∙◌, ◌↔◌, none, some, List, [], ◌∷◌, ◌++◌, append-nil, arith,
  ◌==◌, if◌then◌else◌, Bool-cases, inl, inr, length, get_or, take, drop, pos, minus,
}
use cordell_os.Text.{strlen, strcmp, strncmp, copy_string, strcpy, after_end, strcat}

-- The characters before the end of a string.
unfoldable pub text : List ℕ → List ℕ
text [] = []
text (c ∷ s) = let rest = text s in if c == 0 then [] else c ∷ rest

minus-zero : (a b : ℕ) → minus a b ≡ pos 0 → a ≡ b
minus-zero a b h = ground arith

pub strcmp_sound : (s t : List ℕ) → strcmp s t ≡ pos 0 → text s ≡ text t
unfolding strcmp text
strcmp_sound [] [] h = refl
strcmp_sound [] (d ∷ t) h = ground (arith, minus-zero 0 d)
strcmp_sound (c ∷ s) [] h = ground (arith, minus-zero c 0)
strcmp_sound (c ∷ s) (d ∷ t) h = ground (arith, minus-zero c d, strcmp_sound s t)

pub strcmp_complete : (s t : List ℕ) → text s ≡ text t → strcmp s t ≡ pos 0
unfolding strcmp text
strcmp_complete [] [] h = refl
strcmp_complete [] (d ∷ t) h = ground arith
strcmp_complete (c ∷ s) [] h = ground arith
strcmp_complete (c ∷ s) (d ∷ t) h = ground (arith, strcmp_complete s t)

-- `strcmp` gives 0 exactly for two strings with the same characters before their ends.
pub strcmp_lem : (s t : List ℕ) → (strcmp s t ≡ pos 0) ↔ (text s ≡ text t)
strcmp_lem s t = (strcmp_sound s t, strcmp_complete s t)

text-drop :
    (s : List ℕ) → text s ≡ (if get_or s 0 0 == 0 then [] else get_or s 0 0 ∷ text (drop 1 s))
unfolding text
text-drop [] = refl
text-drop (c ∷ s) = refl

-- `strncmp` gives 0 exactly for two strings whose first `n` characters are the same.
pub strncmp_lem :
    (s t : List ℕ) (n : ℕ) → (strncmp s t n ≡ pos 0) ↔ (take n (text s) ≡ take n (text t))
unfolding strncmp
strncmp_lem s t zero = (λ h. refl, λ h. refl)
strncmp_lem s t (suc n) =
    let (sound, complete) = strncmp_lem (drop 1 s) (drop 1 t) n in
    (
      λ h.
          ground (arith, text-drop s, text-drop t, minus-zero (get_or s 0 0) (get_or t 0 0), sound),
      λ h. ground (arith, text-drop s, text-drop t, complete),
    )

text-copy_string : (dst src : List ℕ) → text (copy_string dst src) ≡ text src
unfolding text copy_string
text-copy_string dst [] = refl
text-copy_string dst (c ∷ src) = ground (arith, text-copy_string (drop 1 dst) src)

strlen-text : (s : List ℕ) → strlen s ≡ length (text s)
unfolding strlen text
strlen-text [] = refl
strlen-text (c ∷ s) = ground (arith, strlen-text s)

text-take-strlen : (s t : List ℕ) → text (take (strlen s) s ++ t) ≡ text s ++ text t
unfolding strlen text
text-take-strlen [] t = refl
text-take-strlen (c ∷ s) t = ground (arith, text-take-strlen s t)

nil_of_length : (xs : List ℕ) → length xs ≡ 0 → xs ≡ []
nil_of_length [] h = refl
nil_of_length (x ∷ xs) h = absurd (omega arith)

-- After `strcat` the string is the first text followed by the second.
pub text-strcat : (dest src : List ℕ) → text (strcat dest src) ≡ text dest ++ text src
unfolding strcat strcpy
text-strcat dest src = elim (Bool-cases (strlen src == 0)) [
  | inl nothing ↦
      let none_left : text src ≡ [] = nil_of_length (text src) (ground (arith, strlen-text src)) in
      let kept : strcpy (drop (strlen dest) dest) src ≡ none = simp nothing in
      ap (λ o. text (after_end dest o)) kept
      ∙ sym (append-nil (text dest))
      ∙ ap (λ t. text dest ++ t) (sym none_left)
  | inr something ↦
      let copied : strcpy (drop (strlen dest) dest) src
          ≡ some (copy_string (drop (strlen dest) dest) src) =
        simp something in
      ap (λ o. text (after_end dest o)) copied
      ∙ text-take-strlen dest (copy_string (drop (strlen dest) dest) src)
      ∙ ap (λ t. text dest ++ t) (text-copy_string (drop (strlen dest) dest) src)
]
