-- ===== src/Memory/Copy.antt =====
-- What `memcpy` and `memmove` of src/libs/std/memory.c leave in memory.
use cordell_os.Base.{
  ℕ, zero, suc, ◌+◌, ◌-◌, ◌*◌, ◌/◌, ◌%◌, ◌≤◌, ◌≡◌, refl, sym, ap, ◌∙◌, ◌⊎◌, inl, inr, true, false,
  ◌&&◌, arith, ltb, leb, ◌==◌, if◌then◌else◌, Bool-cases,
}
use mathlib.Core.Path.{fun_ext}
use cordell_os.Memory.{move_byte, move_word, copy_words, copy_bytes, copy_back, memcpy, memmove}

-- Memory in which the bytes from `source` on stand at `dest`, all of them read before.
abbrev pub copied : ℕ → (ℕ → ℕ) → ℕ → ℕ → ℕ → ℕ
copied n m dest source a = if leb dest a && ltb a (dest + n) then m (source + (a - dest)) else m a

-- A copy in two steps, where the second does not read what the first has written.
copied-two :
    (n k : ℕ) (m : ℕ → ℕ) (dest source a : ℕ)
    → (dest ≤ source) ⊎ (source + (n + k) ≤ dest)
    → copied k (copied n m dest source) (dest + n) (source + n) a ≡ copied (n + k) m dest source a
copied-two n k m dest source a h = elim (Bool-cases (leb (dest + n) a && ltb a (dest + n + k))) [
  | inl late ↦
      let whole : (leb dest a && ltb a (dest + (n + k))) ≡ true = ground arith in
      let unread : (leb dest (source + n + (a - (dest + n)))
            && ltb (source + n + (a - (dest + n))) (dest + n))
          ≡ false =
        ground arith in
      let same : source + n + (a - (dest + n)) ≡ source + (a - dest) = ground arith in
      rw (late, whole, unread) (ap m same)
  | inr early ↦ elim (Bool-cases (leb dest a && ltb a (dest + n))) [
    | inl first ↦
        let whole : (leb dest a && ltb a (dest + (n + k))) ≡ true = ground arith in
        rw (early, first, whole) refl
    | inr outside ↦
        let out : (leb dest a && ltb a (dest + (n + k))) ≡ false = ground arith in
        rw (early, outside, out) refl
  ]
]

-- One byte, and no byte.
copied-none : (m : ℕ → ℕ) (dest source a : ℕ) → copied 0 m dest source a ≡ m a
copied-none m dest source a =
    let out : (leb dest a && ltb a (dest + 0)) ≡ false = ground arith in rw out refl

move_byte-copied : (m : ℕ → ℕ) (dest source : ℕ) → move_byte m dest source ≡ copied 1 m dest source
move_byte-copied m dest source = fun_ext (λ a. elim (Bool-cases (a == dest)) [
  | inl e ↦
      let inside : (leb dest a && ltb a (dest + 1)) ≡ true = ground arith in
      let same : source ≡ source + (a - dest) = ground arith in rw (e, inside) (ap m same)
  | inr e ↦ let out : (leb dest a && ltb a (dest + 1)) ≡ false = ground arith in rw (e, out) refl
])

-- The loops, where the source does not begin inside the bytes written before.
copy_bytes-copied :
    (n : ℕ) (m : ℕ → ℕ) (dest source a : ℕ)
    → (dest ≤ source) ⊎ (source + n ≤ dest)
    → copy_bytes n m dest source a ≡ copied n m dest source a
unfolding copy_bytes
copy_bytes-copied zero m dest source a h = sym (copied-none m dest source a)
copy_bytes-copied (suc n) m dest source a h =
    copy_bytes-copied n (move_byte m dest source) (dest + 1) (source + 1) a (ground arith)
    ∙ ap (λ t. copied n t (dest + 1) (source + 1) a) (move_byte-copied m dest source)
    ∙ copied-two 1 n m dest source a (ground arith)
    ∙ ap (λ k. copied k m dest source a) (omega arith)

copy_words-copied :
    (n : ℕ) (m : ℕ → ℕ) (dest source a : ℕ)
    → (dest ≤ source) ⊎ (source + n * 4 ≤ dest)
    → copy_words n m dest source a ≡ copied (n * 4) m dest source a
unfolding copy_words
copy_words-copied zero m dest source a h =
    sym (copied-none m dest source a) ∙ ap (λ k. copied k m dest source a) (omega arith)
copy_words-copied (suc n) m dest source a h =
    copy_words-copied n (move_word m dest source) (dest + 4) (source + 4) a (ground arith)
    ∙ copied-two 4 (n * 4) m dest source a (ground arith)
    ∙ ap (λ k. copied k m dest source a) (omega arith)

-- Where the source begins at the destination or behind it, or ends before it, `memcpy` puts the bytes
-- of the source at the destination and leaves every other byte as it is.
pub memcpy_lem :
    (m : ℕ → ℕ) (dest source num a : ℕ)
    → (dest ≤ source) ⊎ (source + num ≤ dest)
    → memcpy m dest source num a
      ≡ (if leb dest a && ltb a (dest + num) then m (source + (a - dest)) else m a)
unfolding memcpy
memcpy_lem m dest source num a h =
    let words : copy_words (num / 4) m dest source ≡ copied (num / 4 * 4) m dest source =
      fun_ext (λ b. copy_words-copied (num / 4) m dest source b (ground arith)) in
    let parts : num / 4 * 4 + num % 4 ≡ num = omega arith in
    copy_bytes-copied (num % 4) (copy_words (num / 4) m dest source) (dest + num / 4 * 4)
      (source + num / 4 * 4) a (ground arith)
    ∙ ap (λ t. copied (num % 4) t (dest + num / 4 * 4) (source + num / 4 * 4) a) words
    ∙ copied-two (num / 4 * 4) (num % 4) m dest source a (ground arith)
    ∙ ap (λ k. copied k m dest source a) parts

-- From the last byte down, where the destination does not begin before the source.
copy_back-copied :
    (n : ℕ) (m : ℕ → ℕ) (dest source a : ℕ)
    → source ≤ dest
    → copy_back n m dest source a ≡ copied n m dest source a
unfolding copy_back
copy_back-copied zero m dest source a h = sym (copied-none m dest source a)
copy_back-copied (suc n) m dest source a h =
    copy_back-copied n (move_byte m (dest + n) (source + n)) dest source a h ∙ last_first
  where
    last_first :
        copied n (move_byte m (dest + n) (source + n)) dest source a
        ≡ copied (suc n) m dest source a
    last_first = elim (Bool-cases (leb dest a && ltb a (dest + n))) [
      | inl early ↦
          let whole : (leb dest a && ltb a (dest + suc n)) ≡ true = ground arith in
          let unread : ((source + (a - dest)) == (dest + n)) ≡ false = ground arith in
          rw (early, whole, unread) refl
      | inr late ↦ elim (Bool-cases (a == (dest + n))) [
        | inl e ↦
            let whole : (leb dest a && ltb a (dest + suc n)) ≡ true = ground arith in
            let same : source + n ≡ source + (a - dest) = ground arith in
            rw (late, e, whole) (ap m same)
        | inr e ↦
            let out : (leb dest a && ltb a (dest + suc n)) ≡ false = ground arith in
            rw (late, e, out) refl
      ]
    ]

-- `memmove` puts the bytes of the source, as they were before the call, at the destination and leaves
-- every other byte as it is, whether the two overlap or not.
pub memmove_lem :
    (m : ℕ → ℕ) (dest source len a : ℕ)
    → memmove m dest source len a
      ≡ (if leb dest a && ltb a (dest + len) then m (source + (a - dest)) else m a)
unfolding memmove
memmove_lem m dest source len a = elim (Bool-cases (ltb dest source)) [
  | inl before ↦ rw before (copy_bytes-copied len m dest source a (inl (ground arith)))
  | inr behind ↦ rw behind (copy_back-copied len m dest source a (ground arith))
]
