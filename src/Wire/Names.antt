-- ===== src/Wire/Names.antt =====
-- The fixed-size names of server/include/server/Packets.hpp: SetUsername and GetUsername of
-- ConnectReqPacket, SetName and GetName of PlayerScoreData, and the constructor of
-- NotifyConnectPacket. A text is the list of its bytes.
use r_type_j_a_m_e_s.Base.{
  ℕ, zero, suc, ◌-◌, ◌≤◌, ◌<◌, ◌≡◌, ◌≢◌, refl, sym, ap, ◌∙◌, List, [], ◌∷◌, ◌++◌, arith, min,
  length, take, drop, set, replicate, All, length-append, length-take, length-replicate, ◌==◌,
  if◌then◌else◌, ne→==,
}
use r_type_j_a_m_e_s.Wire.Fields.{IsArray}

-- std::copy_n(src.begin(), n, dst.begin()) with `n` within both.
unfoldable pub copy_n : List ℕ → ℕ → List ℕ → List ℕ
copy_n src n dst = take n src ++ drop n dst

-- SetUsername and SetName: `fill('\0')`, then at most 31 characters.
unfoldable pub set_name : List ℕ → List ℕ
unfolding copy_n
set_name name = copy_n name (min (length name) 31) (replicate 32 0)

-- NotifyConnectPacket(pid, uname): the same over a zeroed array, and a NUL put behind it.
unfoldable pub notify_name : List ℕ → List ℕ
unfolding copy_n
notify_name uname = let len = min (length uname) 31 in set (copy_n uname len (replicate 32 0)) len 0

-- GetUsername and GetName: std::string(data), up to the first NUL.
unfoldable pub get_name : List ℕ → List ℕ
get_name [] = []
get_name (c ∷ cs) = if c == 0 then [] else c ∷ get_name cs

get_name-append : (xs ys : List ℕ) → All (λ c. c ≢ 0) xs → get_name (xs ++ 0 ∷ ys) ≡ xs
unfolding get_name
get_name-append [] ys h = refl
get_name-append (x ∷ xs) ys h = rw (ne→== x 0 h.0) (ap (◌∷◌ x) (get_name-append xs ys h.1))

take_all : (n : ℕ) (xs : List ℕ) → length xs ≤ n → take n xs ≡ xs
take_all zero [] h = refl
take_all zero (x ∷ xs) h = absurd (omega arith)
take_all (suc n) [] h = refl
take_all (suc n) (x ∷ xs) h = ap (◌∷◌ x) (take_all n xs (omega arith))

take-min : (n : ℕ) (xs : List ℕ) → take (min (length xs) n) xs ≡ take n xs
take-min zero xs = let e : min (length xs) 0 ≡ 0 = omega arith in ap (λ k. take k xs) e
take-min (suc n) [] = let e : min 0 (suc n) ≡ 0 = omega arith in ap (λ k. take {A = ℕ} k []) e
take-min (suc n) (x ∷ xs) =
    let e : min (suc (length xs)) (suc n) ≡ suc (min (length xs) n) = omega arith in
    ap (λ k. take k (x ∷ xs)) e ∙ ap (◌∷◌ x) (take-min n xs)

All-take : (P : ℕ → Type 0) (n : ℕ) (xs : List ℕ) → All P xs → All P (take n xs)
All-take P zero xs h = tt
All-take P (suc n) [] h = tt
All-take P (suc n) (x ∷ xs) h = (h.0, All-take P n xs h.1)

All-append : (P : ℕ → Type 0) (xs ys : List ℕ) → All P xs → All P ys → All P (xs ++ ys)
All-append P [] ys h k = k
All-append P (x ∷ xs) ys h k = (h.0, All-append P xs ys h.1 k)

All-zeros : (n : ℕ) → All (λ c. c < 256) (replicate n 0)
All-zeros zero = tt
All-zeros (suc n) = (omega arith, All-zeros n)

zeros : ℕ → List ℕ
zeros n = replicate n 0

drop-zeros : (n m : ℕ) → drop m (zeros n) ≡ zeros (n - m)
unfolding zeros
drop-zeros n zero = ap (λ k. replicate {A = ℕ} k 0) (omega arith)
drop-zeros zero (suc m) = let e : 0 ≡ 0 - suc m = omega arith in ap (λ k. replicate {A = ℕ} k 0) e
drop-zeros (suc n) (suc m) =
    let e : n - m ≡ suc n - suc m = omega arith in
    drop-zeros n m ∙ ap (λ k. replicate {A = ℕ} k 0) e

-- At most 31 characters of the name, a NUL, and NULs up to 32.
padded : List ℕ → List ℕ
unfolding zeros
padded name = take 31 name ++ 0 ∷ zeros (31 - min (length name) 31)

set_name-padded : (name : List ℕ) → set_name name ≡ padded name
unfolding set_name copy_n padded
set_name-padded name =
    let m : ℕ = min (length name) 31 in
    let e : 32 - min (length name) 31 ≡ suc (31 - min (length name) 31) = omega arith in
    ap (λ k. k ++ drop m (replicate {A = ℕ} 32 0)) (take-min 31 name)
    ∙ ap (λ k. take 31 name ++ k) (drop-zeros 32 m ∙ ap (λ k. replicate {A = ℕ} k 0) e)

set-nul : (xs ys : List ℕ) (n : ℕ) → length xs ≡ n → set (xs ++ 0 ∷ ys) n 0 ≡ xs ++ 0 ∷ ys
set-nul [] ys zero e = refl
set-nul [] ys (suc n) e = absurd (omega arith)
set-nul (x ∷ xs) ys zero e = absurd (omega arith)
set-nul (x ∷ xs) ys (suc n) e = ap (◌∷◌ x) (set-nul xs ys n (omega arith))

length-take_31 : (name : List ℕ) → length (take 31 name) ≡ min (length name) 31
length-take_31 name = length-take 31 name ∙ omega arith

-- The constructor of NotifyConnectPacket stores a name as SetUsername and SetName do.
pub notify_name-set_name : (name : List ℕ) → notify_name name ≡ set_name name
unfolding notify_name set_name padded
notify_name-set_name name =
    let m : ℕ = min (length name) 31 in
    ap (λ xs. set xs m 0) (set_name-padded name)
    ∙ set-nul (take 31 name) (zeros (31 - m)) m (length-take_31 name)
    ∙ sym (set_name-padded name)

-- A stored name whose characters are bytes fills its array of 32 bytes.
pub set_name-IsArray : (name : List ℕ) → All (λ c. c < 256) name → IsArray 32 (set_name name)
unfolding padded zeros
set_name-IsArray name h = rw (set_name-padded name) (record {
  size =
      length-append (take 31 name) (0 ∷ replicate (31 - min (length name) 31) 0)
      ∙ omega
          (arith, length-take_31 name, length-replicate {0} {A = ℕ} (31 - min (length name) 31) 0);
  bytes =
      All-append (λ c. c < 256) (take 31 name) _ (All-take (λ c. c < 256) 31 name h)
        (omega arith, All-zeros (31 - min (length name) 31));
})

-- A name with no NUL in it is read back, cut to 31 characters.
pub get_name-set_name :
    (name : List ℕ) → All (λ c. c ≢ 0) name → get_name (set_name name) ≡ take 31 name
unfolding padded
get_name-set_name name h =
    ap get_name (set_name-padded name)
    ∙ get_name-append (take 31 name) (zeros (31 - min (length name) 31))
        (All-take (λ c. c ≢ 0) 31 name h)
