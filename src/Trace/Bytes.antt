-- ===== src/Trace/Bytes.antt =====
-- src/common/trace.cpp: the little-endian helpers. A stream is the list of the bytes that are left; a
-- read that meets its end before its last byte is `none`.
use multicore_oo_o_sim.Base.{
  ℕ, zero, suc, ◌+◌, ◌*◌, ◌/◌, ◌%◌, ◌^◌, ◌<◌, ◌≡◌, refl, ap, ◌∙◌, arith, Option, none, some, List,
  [], ◌∷◌, ◌++◌, length, replicate, Result, ok, throw,
}
use native.Mathlib.Nat.{pow-succ'}
use mathlib.Core.List.{append_assoc}

-- `put_u8`, `put_u16`, `put_u32` and `put_u64`, by their number of bytes.
unfoldable pub put_le : (bytes : ℕ) → ℕ → List ℕ
put_le zero v = []
put_le (suc n) v = v % 256 ∷ put_le n (v / 256)

abbrev pub shift_byte : ℕ → Option (ℕ × List ℕ) → Option (ℕ × List ℕ)
shift_byte b none = none
shift_byte b (some (v, rest)) = some (b + 256 * v, rest)

-- `get_u8`, `get_u16`, `get_u32` and `get_u64`.
unfoldable pub get_le : (bytes : ℕ) → List ℕ → Option (ℕ × List ℕ)
get_le zero s = some (0, s)
get_le (suc n) [] = none
get_le (suc n) (b ∷ s) = shift_byte b (get_le n s)

-- The loops over the arrays of a record.
unfoldable pub put_array : (bytes : ℕ) → List ℕ → List ℕ
put_array n [] = []
put_array n (x ∷ xs) = put_le n x ++ put_array n xs

abbrev pub join : ℕ → Option (List ℕ × List ℕ) → Option (List ℕ × List ℕ)
join v none = none
join v (some (vs, rest)) = some (v ∷ vs, rest)

abbrev pub then_array :
    (List ℕ → Option (List ℕ × List ℕ)) → Option (ℕ × List ℕ) → Option (List ℕ × List ℕ)
then_array next none = none
then_array next (some (v, rest)) = join v (next rest)

unfoldable pub get_array : (bytes count : ℕ) → List ℕ → Option (List ℕ × List ℕ)
get_array n zero s = some ([], s)
get_array n (suc k) s = then_array (get_array n k) (get_le n s)

abbrev pub put_pad : ℕ → List ℕ
put_pad n = replicate n 0

unfoldable pub skip_n : ℕ → List ℕ → Option (List ℕ)
skip_n zero s = some s
skip_n (suc n) [] = none
skip_n (suc n) (b ∷ s) = skip_n n s

-- `if (!get_...) throw TraceError(...)`.
abbrev pub required {ℓ} : {A : Type ℓ} → Option A → Result A
required none = throw
required (some a) = ok a

pub data Fits (bytes : ℕ) : List ℕ → Type 0 where
  nil : Fits bytes []
  cons : {x : ℕ} {xs : List ℕ} → x < 256 ^ bytes → Fits bytes xs → Fits bytes (x ∷ xs)

pub get_le-put_le :
    (n v : ℕ) (rest : List ℕ) → v < 256 ^ n → get_le n (put_le n v ++ rest) ≡ some (v, rest)
unfolding get_le put_le
get_le-put_le zero v rest h = ap (λ t. some (t, rest)) (omega arith)
get_le-put_le (suc n) v rest h =
    ap (shift_byte (v % 256)) (get_le-put_le n (v / 256) rest (omega (arith, pow-succ' 256 n)))
    ∙ ap (λ t. some (t, rest)) (omega arith)

pub get_array-put_array :
    (n : ℕ) (xs rest : List ℕ)
    → Fits n xs
    → get_array n (length xs) (put_array n xs ++ rest) ≡ some (xs, rest)
unfolding get_array put_array
get_array-put_array n [] rest h = refl
get_array-put_array n (x ∷ xs) rest (Fits.cons h hs) =
    ap (λ s. then_array (get_array n (length xs)) (get_le n s))
      (append_assoc (put_le n x) (put_array n xs) rest)
    ∙ ap (then_array (get_array n (length xs))) (get_le-put_le n x (put_array n xs ++ rest) h)
    ∙ ap (join x) (get_array-put_array n xs rest hs)

pub skip_n-append : (ext rest : List ℕ) → skip_n (length ext) (ext ++ rest) ≡ some rest
unfolding skip_n
skip_n-append [] rest = refl
skip_n-append (b ∷ ext) rest = skip_n-append ext rest

pub length-put_le : (n v : ℕ) → length (put_le n v) ≡ n
unfolding put_le
length-put_le zero v = refl
length-put_le (suc n) v = ap suc (length-put_le n (v / 256))
