-- ===== src/Net/Names.antt =====
-- cs426-fall24/lab3/lab3/labrpc/labrpc.go: the names of services and methods, as lists of bytes.
use building_distributed_sys.Prelude.{
  ℕ, ◌≡◌, refl, Bool, true, false, ◌&&◌, Option, none, some, List, [], ◌∷◌, ◌++◌, ◌↔◌, ◌==◌, All,
  if◌then◌else◌, not, arith,
}
use building_distributed_sys.Prelude.Maps.{Eq}

abbrev pub Bytes : Type 0
Bytes = List ℕ

abbrev pub bytes_beq : Bytes → Bytes → Bool
bytes_beq [] [] = true
bytes_beq [] (y ∷ ys) = false
bytes_beq (x ∷ xs) [] = false
bytes_beq (x ∷ xs) (y ∷ ys) = (x == y) && bytes_beq xs ys

pub bytes_beq_iff : (xs ys : Bytes) → (bytes_beq xs ys ≡ true) ↔ (xs ≡ ys)
bytes_beq_iff [] [] = ground arith
bytes_beq_iff [] (y ∷ ys) = ground arith
bytes_beq_iff (x ∷ xs) [] = ground arith
bytes_beq_iff (x ∷ xs) (y ∷ ys) = grind (arith, bytes_beq_iff xs ys)

instance abbrev pub bytes_eq : Eq Bytes
bytes_eq = record { beq = bytes_beq; beq_iff = bytes_beq_iff }

-- The two parts of a name around its last dot, by strings.LastIndex and two slices; `none` where
-- there is no dot, and the slice up to -1 panics.
unfoldable pub split_method : Bytes → Option (Bytes × Bytes)
split_method [] = none
split_method (c ∷ cs) = elim (split_method cs) [
  | some (service, method) ↦ some (c ∷ service, method)
  | none ↦ if c == 46 then some ([], cs) else none
]

no_dot : (method : Bytes) → All (λ c. not (c == 46) ≡ true) method → split_method method ≡ none
unfolding split_method
no_dot [] h = refl
no_dot (c ∷ cs) h = let rest = no_dot cs h.1 in let first = h.0 in rw (rest) (ground arith)

-- A service's name, a dot and a method's name without a dot split into the two again, whatever dots
-- the service's name has.
pub split_method-join :
    (service method : Bytes)
    → All (λ c. not (c == 46) ≡ true) method
    → split_method (service ++ 46 ∷ method) ≡ some (service, method)
unfolding split_method
split_method-join [] method h = rw (no_dot method h) refl
split_method-join (c ∷ service) method h = rw (split_method-join service method h) refl
