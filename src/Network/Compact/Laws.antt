-- ===== src/Network/Compact/Laws.antt =====
-- The pending blocks stay within their number.
use equiforge.Prelude.{
  ℕ, suc, ◌≤◌, ◌<◌, ◌≡◌, ◌⊎◌, refl, arith, Bool-cases, inl, inr, [], ◌∷◌, length, ltb, leb,
  bytes_eq_refl, bytes_instance,
}
use equiforge.Prelude.Maps.{Map, remove}
use equiforge.Types.{Hash256, Transaction}
use equiforge.Network.Compact.{PendingCompact, oldest_of, make_room, feed_all}

abbrev pub Pending : Type 0
Pending = Map Hash256 PendingCompact

pub length-remove : (h : Hash256) (m : Pending) → length (remove h m) ≤ length m
unfolding remove
length-remove h [] = omega arith
length-remove h ((k, pc) ∷ m) = ground (arith, length-remove h m)

length-remove_own :
    (h : Hash256) (pc : PendingCompact) (m : Pending) → length (remove h ((h, pc) ∷ m)) ≤ length m
unfolding remove
length-remove_own h pc m = rw (bytes_eq_refl h) (length-remove h m)

length-remove_cons :
    (o j : Hash256) (pc : PendingCompact) (m : Pending)
    → length (remove o ((j, pc) ∷ m)) ≤ suc (length (remove o m))
unfolding remove
length-remove_cons o j pc m = ground arith

-- The oldest is the first of them, or one of the others.
oldest_of-cases :
    (h : Hash256) (created_at : ℕ) (m : Pending)
    → (oldest_of h created_at m ≡ h) ⊎ (length (remove (oldest_of h created_at m) m) < length m)
unfolding oldest_of
oldest_of-cases h created_at [] = inl refl
oldest_of-cases h created_at ((j, p) ∷ m) = elim (Bool-cases (ltb p.created_at created_at)) [
  | inl earlier ↦ rw earlier (elim (oldest_of-cases j p.created_at m) [
    | inl first ↦ inr (rw first (omega (arith, length-remove_own j p m)))
    | inr other ↦ inr (omega (arith, length-remove_cons (oldest_of j p.created_at m) j p m))
  ])
  | inr later ↦ rw later (elim (oldest_of-cases h created_at m) [
    | inl first ↦ inl first
    | inr other ↦ inr (omega (arith, length-remove_cons (oldest_of h created_at m) j p m))
  ])
]

pub make_room-bound : (m : Pending) → length m ≤ 50 → length (make_room m) ≤ 49
unfolding make_room
make_room-bound [] h = omega arith
make_room-bound ((h, p) ∷ m) bound = elim (Bool-cases (leb 50 (length ((h, p) ∷ m)))) [
  | inr few ↦ rw few (ground arith)
  | inl full ↦ rw full (elim (oldest_of-cases h p.created_at m) [
    | inl first ↦ rw first (omega (arith, length-remove_own h p m))
    | inr other ↦ omega (arith, length-remove_cons (oldest_of h p.created_at m) h p m)
  ])
]

pub length-feed_all :
    (txid : Hash256) (tx : Transaction) (m : Pending) → length (feed_all txid tx m) ≡ length m
unfolding feed_all
length-feed_all txid tx [] = refl
length-feed_all txid tx ((h, pc) ∷ m) = omega (arith, length-feed_all txid tx m)
