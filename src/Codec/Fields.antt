-- ===== src/Codec/Fields.antt =====
-- Concrete fields of a byte format, to show that the documented behaviour of MessagePack can be
-- met: every text and every list is written behind its length.
use airpc.Prelude.{
  ℕ, zero, suc, ◌≡◌, refl, List, [], ◌∷◌, ◌++◌, Option, none, some, Text, text, length,
  length-append, take, drop, drop-append, take-append, leb, ℤ, pos, negsuc, pos_part, neg_part,
  Result, ok, err, if◌then◌else◌, arith,
}

infixl 5 ◌>>=◌
abbrev pub ◌>>=◌ {ℓ κ} : {A : Type ℓ} {B : Type κ} → Option A → (A → Option B) → Option B
none >>= k = none
some a >>= k = k a

unfoldable pub put_text : Text → Text → Text
put_text t k = length t ∷ (t ++ k)

unfoldable pub get_text : Text → Option (Text × Text)
get_text [] = none
get_text (n ∷ s) = if leb n (length s) then some (take n s, drop n s) else none

pub get_text-put_text : (t k : Text) → get_text (put_text t k) ≡ some (t, k)
unfolding get_text put_text
get_text-put_text t k = ground (arith, length-append t k, take-append t k, drop-append t k)

unfoldable pub put_int : ℤ → Text → Text
put_int z k = pos_part z ∷ neg_part z ∷ k

to_int : ℕ → ℕ → ℤ
to_int p zero = pos p
to_int p (suc n) = negsuc n

unfoldable pub get_int : Text → Option (ℤ × Text)
unfolding to_int
get_int (p ∷ n ∷ s) = some (to_int p n, s)
get_int (p ∷ []) = none
get_int [] = none

pub get_int-put_int : (z : ℤ) (k : Text) → get_int (put_int z k) ≡ some (z, k)
unfolding get_int put_int
get_int-put_int (pos n) k = refl
get_int-put_int (negsuc n) k = refl

-- The elements of a list, its length known.
unfoldable pub put_all {ℓ} : {A : Type ℓ} → (A → Text → Text) → List A → Text → Text
put_all put [] k = k
put_all put (x ∷ xs) k = put x (put_all put xs k)

unfoldable pub get_all {ℓ} :
    {A : Type ℓ} → (Text → Option (A × Text)) → ℕ → Text → Option (List A × Text)
get_all get zero s = some ([], s)
get_all get (suc n) s = do (x, s) ← get s; (xs, s) ← get_all get n s; some (x ∷ xs, s)

unfoldable pub put_list {ℓ} : {A : Type ℓ} → (A → Text → Text) → List A → Text → Text
unfolding put_all
put_list put xs k = length xs ∷ put_all put xs k

unfoldable pub get_list {ℓ} :
    {A : Type ℓ} → (Text → Option (A × Text)) → Text → Option (List A × Text)
unfolding get_all
get_list get [] = none
get_list get (n ∷ s) = get_all get n s

get_all-put_all {ℓ} :
    {A : Type ℓ} (put : A → Text → Text) (get : Text → Option (A × Text))
    → ((x : A) (k : Text) → get (put x k) ≡ some (x, k))
    → (xs : List A) (k : Text) → get_all get (length xs) (put_all put xs k) ≡ some (xs, k)
unfolding get_all put_all
get_all-put_all put get law [] k = refl
get_all-put_all put get law (x ∷ xs) k =
    let ih = get_all-put_all put get law xs k in let h = law x (put_all put xs k) in rw h (rw ih)

pub get_list-put_list {ℓ} :
    {A : Type ℓ} (put : A → Text → Text) (get : Text → Option (A × Text))
    → ((x : A) (k : Text) → get (put x k) ≡ some (x, k))
    → (xs : List A) (k : Text) → get_list get (put_list put xs k) ≡ some (xs, k)
unfolding get_list put_list
get_list-put_list put get law xs k = get_all-put_all put get law xs k

abbrev pub read {ℓ} : {A : Type ℓ} → Option A → Result Text A
read none = err (text "msgpack: unexpected bytes")
read (some a) = ok a

pub reads_back {ℓ} :
    {A : Type ℓ} (put : A → Text) (get : Text → Option A)
    → ((a : A) → get (put a) ≡ some a)
    → (a : A) (b : Text) → ◌≡◌ {A = Result Text Text} (ok (put a)) (ok b)
    → read (get b) ≡ ok a
reads_back put get law a b e = ground (arith, law a)
