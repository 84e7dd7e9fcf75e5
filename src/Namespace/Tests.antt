-- ===== src/Namespace/Tests.antt =====
-- Runs of the namespace of the process 8 of a host: the proxy 1 of the actor 4 of node 2, and a
-- backend that counts its calls and makes no proxy for node 0.
use boost_actor.Common.{
  ℕ, ◌+◌, ◌≡◌, refl, Bool, true, false, [], ◌∷◌, ◌++◌, Option, All, ◌≢◌, zero, suc, none, some,
  arith, if◌then◌else◌, ◌==◌, EqualityComparable, nat_eq, nat_beq_iff, replicate, inl, ◌&&◌, ◌↔◌,
  subst, Option,
}
use boost_actor.Common.Assoc.{find, option_eq}
use boost_actor.NodeId.{NodeData, NodeId}
use boost_actor.NodeId.Order.{IsText}
use boost_actor.Registry.{Registry, Attached}
use boost_actor.Binary.{Bytes}
use boost_actor.Namespace.{
  Proxies, Backend, null_anchor, kill_proxy, proxy_of, get, get_or_put, erase_proxy,
}
use boost_actor.Namespace.Shared.{Answers, get_or_put-shared, get_or_put-null}
use boost_actor.Namespace.Erase.{Erased, erase_proxy-Erased}
use boost_actor.Namespace.Entries.{entry}
use boost_actor.Namespace.Address.{Addr, read, write, bytes_beq}
use boost_actor.Namespace.Address.Roundtrip.{Meant, fields_equal, bytes_beq_iff, read-write}

abbrev is_node_0 : ℕ → Bool
is_node_0 n = n == 0

abbrev counting : {N : Type 0} → (N → Bool) → Backend N ℕ
counting refused = record {
  make_proxy = λ b node aid. (if refused node then none else some b, b + 1);
}

abbrev nodes : Backend ℕ ℕ
nodes = counting is_node_0

abbrev remote : Backend NodeId ℕ
remote = counting (λ _. false)

abbrev all_alive : ℕ → Bool
all_alive _ = true

abbrev empty_namespace : Proxies ℕ
empty_namespace = []

-- The actor 4 of node 2 has the proxy 0, made by the first call.
abbrev first_call : Option ℕ × Proxies ℕ × ℕ
first_call = get_or_put all_alive nodes 0 empty_namespace 2 4

get_or_put-shared_example :
    Answers all_alive nodes 1 first_call.1 2 4 0
    × ((n i : ℕ)
        → entry first_call.1 n i
          ≡ (if 2 == n && 4 == i then some (some 0) else entry empty_namespace n i))
unfolding find get_or_put proxy_of
get_or_put-shared_example =
    get_or_put-shared all_alive all_alive nodes 0 1 empty_namespace 2 4 0 refl refl

get_or_put-null_example :
    (get all_alive (get_or_put all_alive nodes 5 empty_namespace 0 4).1 0 4).0 ≡ null_anchor
unfolding find
get_or_put-null_example = get_or_put-null all_alive all_alive nodes 5 empty_namespace 0 4 refl refl

abbrev two_proxies : Proxies ℕ
two_proxies = (2, (4, some 0) ∷ (9, some 1) ∷ []) ∷ (3, (4, some 2) ∷ []) ∷ []

erase_proxy-Erased_example :
    Erased two_proxies (erase_proxy all_alive two_proxies 2 4 7).0 2 4
    × ((erase_proxy all_alive two_proxies 2 4 7).1 ≡ kill_proxy 0 7 ∷ [])
unfolding find proxy_of
erase_proxy-Erased_example = erase_proxy-Erased all_alive two_proxies 2 4 7

node_beq : NodeData → NodeData → Bool
node_beq d e = d.pid == e.pid && bytes_beq d.host e.host

node_beq_iff : (d e : NodeData) → (node_beq d e ≡ true) ↔ (d ≡ e)
unfolding node_beq
node_beq_iff d e = (fields_equal d e, λ p. subst (λ x. node_beq d x ≡ true) p (node_beq_self d))
  where
    node_beq_self : (d : NodeData) → node_beq d d ≡ true
    node_beq_self d = rw ((nat_beq_iff d.pid d.pid).1 refl) ((bytes_beq_iff d.host d.host).1 refl)

instance abbrev node_data_eq : EqualityComparable NodeData
node_data_eq = record { equals = node_beq; equals_iff = node_beq_iff }

abbrev process : ℕ → NodeData
process pid = record { pid = pid; host = replicate 20 1 }

-- The actor 5 of this process, by its ID 7.
abbrev here : Addr
here = record { ptr = 5; id = 7; node = some (process 8) }

ones_nonzero : (n : ℕ) → All (λ (x : ℕ). x ≢ 0) (replicate n 1)
ones_nonzero zero = tt
ones_nonzero (suc n) = (λ p. absurd (omega arith), ones_nonzero n)

text : IsText (some (process 8))
text = (refl, ones_nonzero 20)

abbrev no_actors : Registry
no_actors = record { entries = []; named_entries = []; running = 0 }

abbrev wire : Bytes × Registry × Attached
wire = write (some (process 8)) no_actors (some here)

read-write_example :
    read all_alive remote (some (process 8)) 0 wire.1 [] (wire.0 ++ 3 ∷ [])
    ≡ some (Meant all_alive remote (process 8) 0 [] (some here), 3 ∷ [])
unfolding find
read-write_example =
    read-write all_alive remote (process 8) 0 no_actors [] (some here) (3 ∷ [])
      (process 8, refl, (omega arith, omega arith, refl, text, inl refl)) text
