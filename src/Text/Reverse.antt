-- ===== src/Text/Reverse.antt =====
-- The two indices of `reverse` and the characters between them.
use cordell_os.Base.{
  ℕ, zero, suc, ◌+◌, ◌-◌, ◌<◌, ◌≤◌, ◌≡◌, ◌∙◌, ◌&&◌, List, arith, ltb, leb, ◌==◌, if◌then◌else◌,
  length, get_or, set, length-set, get_or-set,
}
use cordell_os.Text.{swapped, reverse_loop, reverse}

get_or-swapped :
    (s : List ℕ) (i j k : ℕ)
    → i < length s
    → j < length s
    → get_or (swapped s i j) k 0
      ≡ (if k == j then get_or s i 0 else if k == i then get_or s j 0 else get_or s k 0)
get_or-swapped s i j k hi hj = ground (
  arith,
  length-set s i (get_or s j 0),
  get_or-set (set s i (get_or s j 0)) j k (get_or s i 0) 0,
  get_or-set s i k (get_or s j 0) 0,
)

length-swapped : (s : List ℕ) (i j : ℕ) → length (swapped s i j) ≡ length s
length-swapped s i j =
    length-set (set s i (get_or s j 0)) j (get_or s i 0) ∙ length-set s i (get_or s j 0)

pub reverse_loop_lem :
    (fuel : ℕ) (s : List ℕ) (start end k : ℕ)
    → end < length s
    → end - start ≤ fuel
    → get_or (reverse_loop fuel s start end) k 0
      ≡ (if leb start k && leb k end then get_or s (start + end - k) 0 else get_or s k 0)
unfolding reverse_loop
reverse_loop_lem zero s start end k lt enough = ground arith
reverse_loop_lem (suc fuel) s start end k lt enough = ground (
  arith,
  length-swapped s start end,
  get_or-swapped s start end k,
  get_or-swapped s start end (start + end - k),
  reverse_loop_lem fuel (swapped s start end) (start + 1) (end - 1) k,
)

-- Where the string has `len` bytes, `reverse` puts those in the opposite order and leaves the bytes
-- behind them.
pub reverse_lem :
    (s : List ℕ) (len k : ℕ)
    → len ≤ length s
    → get_or (reverse s len) k 0 ≡ (if ltb k len then get_or s (len - 1 - k) 0 else get_or s k 0)
unfolding reverse reverse_loop
reverse_lem s zero k le = ground arith
reverse_lem s (suc len) k le = ground (arith, reverse_loop_lem (suc len) s 0 len k)
