-- ===== src/Trace/Lengths.antt =====
-- src/common/trace.cpp: how much of the stream each read takes, and what becomes of a stream that is cut.
use multicore_oo_o_sim.Base.{
  ℕ, zero, suc, ◌+◌, ◌*◌, ◌<◌, ◌≡◌, refl, ap, arith, Option, none, some, List, [], ◌∷◌, length,
  Result, ok, throw, ◌>>=◌, ok-injective, if-cases, ◌==◌,
}
use multicore_oo_o_sim.Trace.Bytes.{
  get_le, get_array, skip_n, required, shift_byte, then_array, join,
}
use multicore_oo_o_sim.Trace.Format.{
  AnyRecord, instr, sync, lifecycle, read_instr_payload, read_sync_payload, read_lifecycle_payload,
  read_payload, next_any, any_of, found, type_instr, type_sync, type_lifecycle,
}

-- A read of `n` bytes takes them, or does not find them.
abbrev Took : {A : Type 0} → ℕ → List ℕ → Option (A × List ℕ) → Type 0
Took n s none = length s < n
Took n s (some (v, t)) = length s ≡ n + length t

abbrev TookRest : ℕ → List ℕ → Option (List ℕ) → Type 0
TookRest n s none = length s < n
TookRest n s (some t) = length s ≡ n + length t

shift_byte-Took :
    (n b : ℕ) (s : List ℕ) (r : Option (ℕ × List ℕ))
    → Took n s r
    → Took (suc n) (b ∷ s) (shift_byte b r)
shift_byte-Took n b s none h = omega (arith, h)
shift_byte-Took n b s (some (v, t)) h = omega (arith, h)

get_le-Took : (n : ℕ) (s : List ℕ) → Took n s (get_le n s)
unfolding get_le
get_le-Took zero s = omega arith
get_le-Took (suc n) [] = omega arith
get_le-Took (suc n) (b ∷ s) = shift_byte-Took n b s (get_le n s) (get_le-Took n s)

skip_n-TookRest : (n : ℕ) (s : List ℕ) → TookRest n s (skip_n n s)
unfolding skip_n
skip_n-TookRest zero s = omega arith
skip_n-TookRest (suc n) [] = omega arith
skip_n-TookRest (suc n) (b ∷ s) = deeper (skip_n n s) (skip_n-TookRest n s)
  where
    deeper : (r : Option (List ℕ)) → TookRest n s r → TookRest (suc n) (b ∷ s) r
    deeper none h = omega (arith, h)
    deeper (some t) h = omega (arith, h)

join-Took :
    (m n v : ℕ) (s t : List ℕ) (r : Option (List ℕ × List ℕ))
    → length s ≡ n + length t
    → Took m t r
    → Took (n + m) s (join v r)
join-Took m n v s t none e h = omega (arith, h, e)
join-Took m n v s t (some (vs, u)) e h = omega (arith, h, e)

array-Took :
    (m n : ℕ) (s : List ℕ) (next : List ℕ → Option (List ℕ × List ℕ)) (r : Option (ℕ × List ℕ))
    → ((t : List ℕ) → Took m t (next t))
    → Took n s r
    → Took (n + m) s (then_array next r)
array-Took m n s next none f h = omega (arith, h)
array-Took m n s next (some (v, t)) f h = join-Took m n v s t (next t) h (f t)

abbrev times : ℕ → ℕ → ℕ
times n zero = 0
times n (suc k) = n + times n k

get_array-Took : (n k : ℕ) (s : List ℕ) → Took (times n k) s (get_array n k s)
unfolding get_array
get_array-Took n zero s = omega arith
get_array-Took n (suc k) s =
    array-Took (times n k) n s (get_array n k) (get_le n s) (get_array-Took n k) (get_le-Took n s)

-- A read that returns has taken `n` bytes.
abbrev pub Used : {A : Type 0} → ℕ → List ℕ → Result (A × List ℕ) → Type 0
Used n s throw = n ≡ n
Used n s (ok (a, t)) = length s ≡ n + length t

module _ {B : Type 0} (n m : ℕ) (s : List ℕ) where
  Used-bind :
      {A : Type 0} (r : Option (A × List ℕ)) (k : A × List ℕ → Result (B × List ℕ))
      → Took n s r
      → ((a : A) (t : List ℕ) → Used m t (k (a, t)))
      → Used (n + m) s (required r >>= k)
  Used-bind none k h f = refl
  Used-bind (some (a, t)) k h f = further (k (a, t)) (f a t)
    where
      further : (r : Result (B × List ℕ)) → Used m t r → Used (n + m) s r
      further throw u = refl
      further (ok (b, v)) u = omega (arith, h, u)

  Used-skip :
      (r : Option (List ℕ)) (k : List ℕ → Result (B × List ℕ))
      → TookRest n s r
      → ((t : List ℕ) → Used m t (k t))
      → Used (n + m) s (required r >>= k)
  Used-skip none k h f = refl
  Used-skip (some t) k h f = further (k t) (f t)
    where
      further : (r : Result (B × List ℕ)) → Used m t r → Used (n + m) s r
      further throw u = refl
      further (ok (b, v)) u = omega (arith, h, u)

module _ {B : Type 0} (n m : ℕ) (s : List ℕ) where
  le-Used :
      (k : ℕ × List ℕ → Result (B × List ℕ))
      → ((a : ℕ) (t : List ℕ) → Used m t (k (a, t)))
      → Used (n + m) s (required (get_le n s) >>= k)
  le-Used k = Used-bind n m s (get_le n s) k (get_le-Took n s)

  skip-Used :
      (k : List ℕ → Result (B × List ℕ))
      → ((t : List ℕ) → Used m t (k t))
      → Used (n + m) s (required (skip_n n s) >>= k)
  skip-Used k = Used-skip n m s (skip_n n s) k (skip_n-TookRest n s)

array-Used :
    {B : Type 0} (n c m : ℕ) (s : List ℕ) (k : List ℕ × List ℕ → Result (B × List ℕ))
    → ((a t : List ℕ) → Used m t (k (a, t)))
    → Used (times n c + m) s (required (get_array n c s) >>= k)
array-Used n c m s k = Used-bind (times n c) m s (get_array n c s) k (get_array-Took n c s)

pub read_sync_payload-Used : (s : List ℕ) → Used 63 s (read_sync_payload s)
unfolding read_sync_payload
read_sync_payload-Used s = le-Used 1 62 s _ λ _ s. skip-Used 6 56 s _ λ s. le-Used 8 48 s _ λ _ s.
    le-Used 8 40 s _ λ _ s.
      le-Used 8 32 s _
        λ _ s. le-Used 8 24 s _ λ _ s. le-Used 8 16 s _ λ _ s. skip-Used 16 0 s _ λ s. omega arith

pub read_lifecycle_payload-Used : (s : List ℕ) → Used 63 s (read_lifecycle_payload s)
unfolding read_lifecycle_payload
read_lifecycle_payload-Used s = le-Used 1 62 s _ λ _ s.
    skip-Used 2 60 s _
      λ s. le-Used 4 56 s _ λ _ s. le-Used 8 48 s _ λ _ s. skip-Used 48 0 s _ λ s. omega arith

pub read_instr_payload-Used : (s : List ℕ) → Used 63 s (read_instr_payload s)
unfolding read_instr_payload
read_instr_payload-Used s = le-Used 1 62 s _ λ _ s. le-Used 8 54 s _ λ _ s.
    array-Used 1 2 52 s _ λ _ s.
      array-Used 1 4 48 s _
        λ _ s. array-Used 8 2 32 s _ λ _ s. array-Used 8 4 0 s _ λ _ s. omega arith

any_of-Used :
    {A : Type 0} (n : ℕ) (s : List ℕ) (f : A → AnyRecord) (r : Result (A × List ℕ))
    → Used n s r
    → Used n s (any_of f r)
any_of-Used n s f throw u = refl
any_of-Used n s f (ok (a, t)) u = u

read_payload-Used : (b : ℕ) (s : List ℕ) → Used 63 s (read_payload b s)
unfolding read_payload
read_payload-Used b s =
    if-cases (Used 63 s) (b == type_instr) _ _
      (λ p. any_of-Used 63 s instr (read_instr_payload s) (read_instr_payload-Used s))
      (λ p.
        if-cases (Used 63 s) (b == type_sync) _ _
          (λ p. any_of-Used 63 s sync (read_sync_payload s) (read_sync_payload-Used s))
          (λ p.
            if-cases (Used 63 s) (b == type_lifecycle) _ _
              (λ p.
                any_of-Used 63 s lifecycle (read_lifecycle_payload s)
                  (read_lifecycle_payload-Used s))
              (λ p. refl)))

cut_payload :
    (s : List ℕ) (r : Result (AnyRecord × List ℕ)) → length s < 63 → Used 63 s r → found r ≡ throw
cut_payload s throw l u = refl
cut_payload s (ok (a, t)) l u = absurd (omega (arith, l, u))

-- A CasimV2 stream that ends inside a record makes the reader throw: it gives neither a record nor the end.
pub next_any_cut : (s : List ℕ) → 0 < length s → length s < 64 → next_any s ≡ throw
unfolding get_le
next_any_cut [] h l = absurd (omega (arith, h))
next_any_cut (b ∷ s) h l =
    cut_payload s (read_payload (b + 256 * 0) s) (omega (arith, l))
      (read_payload-Used (b + 256 * 0) s)

found_payload :
    (s : List ℕ) (r : Result (AnyRecord × List ℕ)) (a : AnyRecord) (t : List ℕ)
    → Used 63 s r
    → found r ≡ ok (some a, t)
    → length s ≡ 63 + length t
found_payload s throw a t u e = cc
found_payload s (ok (b, v)) a t u e =
    let same : length v ≡ length t = ap (λ p. length p.1) (ok-injective e) in omega (arith, u, same)

-- A record takes exactly its 64 bytes from the stream.
pub next_any-length :
    (s : List ℕ) (r : AnyRecord) (t : List ℕ)
    → next_any s ≡ ok (some r, t)
    → length s ≡ 64 + length t
unfolding get_le
next_any-length [] r t e = cc
next_any-length (b ∷ s) r t e = omega (
  arith,
  found_payload s (read_payload (b + 256 * 0) s) r t (read_payload-Used (b + 256 * 0) s) e,
)
