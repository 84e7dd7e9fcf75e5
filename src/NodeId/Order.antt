-- ===== src/NodeId/Order.antt =====
-- What the comparison of node IDs tells apart.
use mathlib.Core.Path.{subst}
use boost_actor.Common.{
  ℕ, zero, suc, ◌≡◌, ◌≢◌, ◌↔◌, refl, true, List, [], ◌∷◌, ◌++◌, none, some, arith, length, All,
  nat_eq,
}
use boost_actor.Common.Int.{pos}
use boost_actor.NodeId.{NodeId, host_id_size, strncmp, node_eq, is_zero}

-- Two hosts without a NUL byte that compare as equal are equal as far as they were compared.
strncmp-eq :
    (a b : List ℕ) (n : ℕ)
    → length a ≡ n
    → length b ≡ n
    → All (λ x. x ≢ 0) a
    → is_zero (strncmp a b n) ≡ true
    → a ≡ b
unfolding strncmp
strncmp-eq [] [] n la lb v h = refl
strncmp-eq [] (y ∷ b) n la lb v h = absurd (omega arith)
strncmp-eq (x ∷ a) [] n la lb v h = absurd (omega arith)
strncmp-eq (x ∷ a) (y ∷ b) zero la lb v h = absurd (omega arith)
strncmp-eq (x ∷ a) (y ∷ b) (suc n) la lb v h =
    ground (arith, v.0, strncmp-eq a b n (omega arith) (omega arith) v.1)

strncmp_self : (a : List ℕ) (n : ℕ) → strncmp a a n ≡ pos 0
unfolding strncmp
strncmp_self a zero = refl
strncmp_self [] (suc n) = refl
strncmp_self (x ∷ a) (suc n) = ground (arith, strncmp_self a n)

-- A host ID that `strncmp` compares in full.
abbrev pub IsText : NodeId → Type 0
IsText none = Unit {0}
IsText (some d) = (length d.host ≡ host_id_size) × All (λ x. x ≢ 0) d.host

node_eq_self : (a : NodeId) → node_eq a a ≡ true
unfolding node_eq
node_eq_self none = refl
node_eq_self (some d) = ground (arith, strncmp_self d.host host_id_size)

-- `operator==` decides equality of node IDs whose 20 host bytes have no zero among them.
pub node_eq_iff : (a b : NodeId) → IsText a → IsText b → (node_eq a b ≡ true) ↔ (a ≡ b)
unfolding node_eq
node_eq_iff none none va vb = (λ h. refl, λ e. refl)
node_eq_iff (some d) none va vb = (λ h. absurd (ground arith), λ e. cc)
node_eq_iff none (some d) va vb = (λ h. absurd (ground arith), λ e. cc)
node_eq_iff (some d) (some e) va vb = (
  λ h. ground (arith, strncmp-eq d.host e.host host_id_size va.0 vb.0 va.1),
  λ p. subst (λ b. node_eq (some d) b ≡ true) p (node_eq_self (some d)),
)

strncmp_prefix : (p a b : List ℕ) (n : ℕ) → is_zero (strncmp (p ++ 0 ∷ a) (p ++ 0 ∷ b) n) ≡ true
unfolding strncmp
strncmp_prefix p a b zero = refl
strncmp_prefix [] a b (suc n) = refl
strncmp_prefix (x ∷ p) a b (suc n) = ground (arith, strncmp_prefix p a b n)

-- Beyond a zero byte nothing is compared: two IDs of one process ID whose hosts agree up to a
-- zero byte are equal to `operator==`, whatever follows it.
pub node_eq_collides :
    (pid : ℕ) (p a b : List ℕ)
    → node_eq
        (some (record { pid = pid; host = p ++ 0 ∷ a }))
        (some (record { pid = pid; host = p ++ 0 ∷ b }))
      ≡ true
unfolding node_eq
node_eq_collides pid p a b = ground (arith, strncmp_prefix p a b host_id_size)
