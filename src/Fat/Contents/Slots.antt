-- ===== src/Fat/Contents/Slots.antt =====
-- What the calls of src/kernel/filesystems/fat.c do to the table of open contents.
use cordell_os.Base.{
  ℕ, zero, suc, ◌+◌, ◌<◌, ◌≡◌, refl, sym, ap, ◌∙◌, ◌⊎◌, inl, inr, Bool, Option, none, some, List,
  [], ◌∷◌, arith, length, get_or, set, ◌==◌, Bool-cases,
}
use mathlib.Core.Path.{subst}
use cordell_os.Fat.Volume.{Volume, Outcome, done, halted, ◌>>=◌}
use cordell_os.Fat.Content.{
  File, Opened, opened, failed, counted, bad_cluster, read_error, out_of_fuel, open_file,
}
use cordell_os.Fat.Names.Stored.{stored_name}
use cordell_os.Fat.Change.{cluster_of}
use cordell_os.Fat.Path.{Walked, at_entry, no_entry, broken, walk_fuel, walk_path}
use cordell_os.Fat.Contents.{
  Content, Table, reset_content, first_free, allocate_content_slot, release_content_slot,
  get_content, Open, descriptor, store_named, store_file, store_entry, open_walked, open_content,
  is_directory, parent_of,
}

-- Whatever a call that returns gives.
abbrev pub Returns {ℓ κ} : {A : Type ℓ} → (A → Type κ) → Outcome A → Type κ
Returns P (done a) = P a
Returns P halted = Unit

pub Returns-bind :
    {A : Type 0} {B : Type 0} (P : B → Type 0) (m : Outcome A) (f : A → Outcome B)
    → ((a : A) → Returns P (f a))
    → Returns P (m >>= f)
Returns-bind P (done a) f h = h a
Returns-bind P halted f h = tt

pub Returns-then :
    {A B : Type 0} (P : A → Type 0) (Q : B → Type 0) (m : Outcome A) (f : A → Outcome B)
    → Returns P m
    → ((a : A) → P a → Returns Q (f a))
    → Returns Q (m >>= f)
Returns-then P Q (done a) f p h = h a p
Returns-then P Q halted f p h = tt

pub set-set : {A : Type 0} (xs : List A) (i : ℕ) (x y : A) → set (set xs i x) i y ≡ set xs i y
set-set [] i x y = refl
set-set (z ∷ zs) zero x y = refl
set-set (z ∷ zs) (suc i) x y = ap (◌∷◌ z) (set-set zs i x y)

set-same : {A : Type 0} (xs : List A) (i : ℕ) (d : A) → set xs i (get_or xs i d) ≡ xs
set-same [] i d = refl
set-same (z ∷ zs) zero d = refl
set-same (z ∷ zs) (suc i) d = ap (◌∷◌ z) (set-same zs i d)

-- The descriptor is an entry of the table that is free, and those below it are in use.
pub record Free (t : Table) (fd : ℕ) : Type 0 where
  pub inside : fd < length t
  pub free : get_content t fd ≡ none
  pub first : (j : ℕ) → j < fd → (c : Content) × (get_content t j ≡ some c)

pub first_free_lem :
    (t : Table)
    → ((first_free t ≡ none)
        × ((j : ℕ) → j < length t → (c : Content) × (get_content t j ≡ some c)))
      ⊎ ((fd : ℕ) × (first_free t ≡ some fd) × Free t fd)
unfolding first_free get_content
first_free_lem [] = inl (refl, λ j lt. absurd (omega arith))
first_free_lem (none ∷ t) =
    inr
      (0, refl, record { inside = omega arith; free = refl; first = λ j lt. absurd (omega arith) })
first_free_lem (some c ∷ t) = elim (first_free_lem t) [
  | inl (e, used) ↦ inl (rw e refl, by_index c t (length t) (λ j lt. used j lt))
  | inr (fd, e, free) ↦ inr (
    fd + 1,
    rw e refl,
    record {
      inside = omega (arith, free.inside);
      free = subst (λ k. get_or (some c ∷ t) k none ≡ none) (suc_eq fd) free.free;
      first = λ j lt. by_index c t fd (λ k lt'. free.first k lt') j (omega arith);
    },
  )
]
  where
    suc_eq : (n : ℕ) → suc n ≡ n + 1
    suc_eq n = omega arith

    by_index :
        (c : Content) (t : Table) (n : ℕ)
        → ((j : ℕ) → j < n → (b : Content) × (get_or t j none ≡ some b))
        → (j : ℕ) → j < suc n
        → (b : Content) × (get_or (some c ∷ t) j none ≡ some b)
    by_index c t n used zero lt = (c, refl)
    by_index c t n used (suc j) lt = used j (omega arith)

-- A free slot that was taken and given back leaves the table as it was.
pub release-set :
    (t : Table) (fd : ℕ) (o : Option Content) → Free t fd → release_content_slot (set t fd o) fd ≡ t
unfolding release_content_slot get_content
release-set t fd o free = set-set t fd o none ∙ ap (set t fd) (sym free.free) ∙ set-same t fd none

-- What opening leaves: the table with a content at a free descriptor, the first one, or the table as
-- it was.
abbrev pub OpenedIn : Table → Open × Table → Type 0
OpenedIn t (descriptor fd, t') = Free t fd × ((c : Content) × (t' ≡ set t fd (some c)))
OpenedIn t (_, t') = t' ≡ t

module _ (t : Table) (fd : ℕ) (free : Free t fd) where
  abbrev taken : Table
  taken = set t fd (some reset_content)

  store_named-table :
      (parent : ℕ) (e : List ℕ) (f : File) (o : Option (List ℕ × List ℕ))
      → Returns (OpenedIn t) (store_named taken fd parent e f o)
  store_named-table parent e f none = tt
  store_named-table parent e f (some (name, extension)) =
      (free, (_, set-set t fd (some reset_content) (some _)))

  store_file-table :
      (parent : ℕ) (e : List ℕ) (o : Opened) → Returns (OpenedIn t) (store_file taken fd parent e o)
  store_file-table parent e (opened f) = store_named-table parent e f (stored_name e)
  store_file-table parent e (failed bad_cluster) = release-set t fd (some reset_content) free
  store_file-table parent e (failed read_error) = release-set t fd (some reset_content) free
  store_file-table parent e (failed (counted n)) = release-set t fd (some reset_content) free
  store_file-table parent e (failed out_of_fuel) = release-set t fd (some reset_content) free

  store_entry-table :
      (v : Volume) (has_memory : Bool) (fuel parent : ℕ) (e : List ℕ)
      → Returns (OpenedIn t) (store_entry v has_memory fuel taken fd parent e)
  unfolding store_entry
  store_entry-table v has_memory fuel parent e = elim (Bool-cases (is_directory e)) [
    | inl yes_dir ↦ simp yes_dir (free, (_, set-set t fd (some reset_content) (some _)))
    | inr no_dir ↦ simp no_dir (
        Returns-bind (OpenedIn t) (open_file v has_memory fuel (cluster_of v.fat e))
          (λ o. store_file taken fd parent e o) (store_file-table parent e))
  ]

  open_walked-table :
      (v : Volume) (has_memory : Bool) (fuel : ℕ) (path : List ℕ) (w : Walked)
      → Returns (OpenedIn t) (open_walked v has_memory fuel taken fd path w)
  open_walked-table v has_memory fuel path (at_entry e cluster) =
      store_entry-table v has_memory fuel (parent_of path cluster) e
  open_walked-table v has_memory fuel path no_entry = release-set t fd (some reset_content) free
  open_walked-table v has_memory fuel path broken = release-set t fd (some reset_content) free
  open_walked-table v has_memory fuel path walk_fuel = release-set t fd (some reset_content) free

-- `FAT_open_content` either takes the first free descriptor, at which the table then has the
-- content, or it fails and leaves the table as it was. This holds for each call that returns.
pub open_content-table :
    (v : Volume) (has_memory : Bool) (fuel : ℕ) (path : List ℕ) (t : Table)
    → Returns (OpenedIn t) (open_content v has_memory fuel path t)
unfolding open_content allocate_content_slot
open_content-table v has_memory fuel path t = elim (first_free_lem t) [
  | inl (e, used) ↦ rw e refl
  | inr (fd, e, free) ↦ rw e (elim (Bool-cases (v.fat.fat_type == 32)) [
    | inl fat32 ↦ simp fat32 (
        Returns-bind (OpenedIn t) (walk_path v fuel path [] 0 0 v.fat.ext_root_cluster)
          (λ w. open_walked v has_memory fuel (taken t fd free) fd path w)
          (open_walked-table t fd free v has_memory fuel path))
    | inr other ↦ simp other (release-set t fd (some reset_content) free)
  ])
]
