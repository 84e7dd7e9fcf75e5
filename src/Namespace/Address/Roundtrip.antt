-- ===== src/Namespace/Address/Roundtrip.antt =====
-- An address that was written is read back as the actor that it names.
use boost_actor.Common.{
  ℕ, ◌<◌, ◌^◌, ◌≡◌, refl, sym, ap, subst, ◌∙◌, Bool, true, false, ◌&&◌, [], ◌∷◌, ◌++◌, Option, none,
  some, arith, if◌then◌else◌, ◌==◌, EqualityComparable, nat_eq, nat_beq_iff, length, replicate,
  append_assoc, ◌↔◌, Bool-cases, inl, inr,
}
use boost_actor.Binary.{Bytes, write_int}
use boost_actor.Binary.Ints.{read_int-write_int, read_raw-append}
use boost_actor.NodeId.{NodeData, NodeId, host_id_size, host_id, process_id, node_eq}
use boost_actor.NodeId.Order.{IsText, node_eq_iff}
use boost_actor.Registry.{Registry, put, get as get_actor}
use boost_actor.Registry.Lives.{KnownAs, put-get}
use boost_actor.Namespace.{Proxies, Backend, get_or_put}
use boost_actor.Namespace.Address.{
  Addr, is_remote, write_fields, write, Resolved, invalid_actor_addr, local_actor, local_or_invalid,
  address_of, bytes_beq, resolve, read,
}

pub bytes_beq_iff : (xs ys : Bytes) → (bytes_beq xs ys ≡ true) ↔ (xs ≡ ys)
bytes_beq_iff [] [] = (λ h. refl, λ e. refl)
bytes_beq_iff [] (y ∷ ys) = (λ h. absurd (ground arith), λ e. cc)
bytes_beq_iff (x ∷ xs) [] = (λ h. absurd (ground arith), λ e. cc)
bytes_beq_iff (x ∷ xs) (y ∷ ys) = ground (arith, nat_beq_iff x y, bytes_beq_iff xs ys)

pub fields_equal : (d e : NodeData) → (d.pid == e.pid && bytes_beq d.host e.host) ≡ true → d ≡ e
fields_equal d e h =
    data_ext d e (ground (arith, nat_beq_iff d.pid e.pid))
      (ground (arith, bytes_beq_iff d.host e.host))
  where
    data_ext : (d e : NodeData) → d.pid ≡ e.pid → d.host ≡ e.host → d ≡ e
    data_ext d e p q = λ i. record { pid = p i; host = q i }

-- An actor of a node: its ID and that of its process are 32-bit integers that are not both zero,
-- the host ID has 20 bytes and no zero among them, and the registry has no other actor by its ID.
abbrev IsActor : Registry → ℕ → ℕ → NodeData → Type 0
IsActor reg ptr aid d =
    (aid < 2 ^ 32)
    × (d.pid < 2 ^ 32)
    × ((aid == 0 && d.pid == 0) ≡ false)
    × IsText (some d)
    × KnownAs reg aid ptr

-- The registry after the address of an actor is written.
registered : Bool → Registry → ℕ → ℕ → Registry
registered remote reg ptr aid = (if remote then (reg, []) else put reg aid (some ptr)).0

module _ {B : Type 0} ⦃e : EqualityComparable NodeId⦄ (alive : ℕ → Bool) (be : Backend NodeId B)
    (this : NodeData) where
  read-fields :
      (b : B) (reg : Registry) (ns : Proxies NodeId) (aid : ℕ) (hid : Bytes) (pid : ℕ)
      (rest : Bytes)
      → aid < 2 ^ 32
      → length hid ≡ host_id_size
      → pid < 2 ^ 32
      → read alive be (some this) b reg ns (write_fields aid hid pid ++ rest)
        ≡ some (resolve alive be (some this) b reg ns aid hid pid, rest)
  unfolding read write_fields
  read-fields b reg ns aid hid pid rest ha hh hp =
      rw
        (
          append_assoc,
          append_assoc,
          read_int-write_int 4 aid (hid ++ (write_int 4 pid ++ rest)) ha,
          read_raw-append host_id_size hid (write_int 4 pid ++ rest) hh,
          read_int-write_int 4 pid rest hp,
        )
        refl

  resolve-none :
      (b : B) (reg : Registry) (ns : Proxies NodeId) (hid : Bytes)
      → resolve alive be (some this) b reg ns 0 hid 0 ≡ (invalid_actor_addr, ns, b)
  unfolding resolve
  resolve-none b reg ns hid = refl

  module _ (b : B) (reg : Registry) (ns : Proxies NodeId) (aid : ℕ) (d : NodeData)
      (valid : (aid == 0 && d.pid == 0) ≡ false) where
    -- The fields of this node name an actor of this process.
    resolve-this :
        d ≡ this
        → resolve alive be (some this) b reg ns aid d.host d.pid
          ≡ (local_or_invalid (get_actor reg aid), ns, b)
    unfolding resolve process_id host_id
    resolve-this same =
        rw (valid, ← same, (nat_beq_iff d.pid d.pid).1 refl, (bytes_beq_iff d.host d.host).1 refl)
          refl

    -- Fields that differ from those of this node name an actor of another one.
    resolve-other :
        (d.pid == this.pid && bytes_beq d.host this.host) ≡ false
        → let r = get_or_put alive be b ns (some d) aid in
          resolve alive be (some this) b reg ns aid d.host d.pid ≡ (address_of r.0, r.1, r.2)
    unfolding resolve process_id host_id
    resolve-other other = rw (valid, other) refl

  node_eq→≡ :
      (d : NodeData)
      → IsText (some d)
      → IsText (some this)
      → node_eq (some d) (some this) ≡ true
      → d ≡ this
  node_eq→≡ d v t same =
      ap (λ n. elim n [ none ↦ d | some x ↦ x ]) ((node_eq_iff (some d) (some this) v t).0 same)

  other_fields :
      (d : NodeData)
      → IsText (some d)
      → IsText (some this)
      → node_eq (some d) (some this) ≡ false
      → (d.pid == this.pid && bytes_beq d.host this.host) ≡ false
  other_fields d v t other = elim (Bool-cases (d.pid == this.pid && bytes_beq d.host this.host)) [
    | inr differ ↦ differ
    | inl alike ↦
        let same = (node_eq_iff (some d) (some this) v t).1 (ap some (fields_equal d this alike)) in
        absurd (ground arith)
  ]

  -- What is read back: an invalid address as such; an actor of this process as that actor, and
  -- one of another as the proxy that `get_or_put` gives for its node and ID.
  abbrev pub Meant : B → Proxies NodeId → Option Addr → Resolved × Proxies NodeId × B
  Meant b ns none = (invalid_actor_addr, ns, b)
  Meant b ns (some a) =
      let r = get_or_put alive be b ns a.node a.id in
      if is_remote (some this) a then (address_of r.0, r.1, r.2) else (local_actor a.ptr, ns, b)

  resolve-local :
      (b : B) (reg : Registry) (ns : Proxies NodeId) (ptr aid : ℕ) (d : NodeData)
      → IsActor reg ptr aid d
      → d ≡ this
      → resolve alive be (some this) b (registered false reg ptr aid) ns aid d.host d.pid
        ≡ (local_actor ptr, ns, b)
  unfolding registered local_or_invalid
  resolve-local b reg ns ptr aid d v same =
      resolve-this b (registered false reg ptr aid) ns aid d v.2 same
      ∙ rw (put-get reg aid ptr v.4) refl

  resolve-written :
      (b : B) (reg : Registry) (ns : Proxies NodeId) (ptr aid : ℕ) (d : NodeData)
      → IsActor reg ptr aid d
      → IsText (some this)
      → let a : Addr = record { ptr = ptr; id = aid; node = some d } in
        resolve alive be
          (some this)
          b
          (registered (is_remote (some this) a) reg ptr aid)
          ns
          aid
          d.host
          d.pid
        ≡ Meant b ns (some a)
  unfolding is_remote registered
  resolve-written b reg ns ptr aid d v t = elim (Bool-cases (node_eq (some d) (some this))) [
    | inl same ↦ rw same (resolve-local b reg ns ptr aid d v (node_eq→≡ d v.3 t same))
    | inr other ↦ rw other (resolve-other b reg ns aid d v.2 (other_fields d v.3 t other))
  ]

  write-fields :
      (b : B) (reg : Registry) (ns : Proxies NodeId) (a : Addr) (d : NodeData) (rest : Bytes)
      → a.node ≡ some d
      → IsActor reg a.ptr a.id d
      → IsText (some this)
      → let w = write (some this) reg (some a) in
        read alive be (some this) b w.1 ns (w.0 ++ rest) ≡ some (Meant b ns (some a), rest)
  unfolding write is_remote registered host_id process_id
  write-fields b reg ns a d rest h v t =
      let at : NodeId → Addr = λ n. record { ptr = a.ptr; id = a.id; node = n } in
      subst
        (λ n.
          read alive be (some this) b (write (some this) reg (some (at n))).1 ns
            ((write (some this) reg (some (at n))).0 ++ rest)
          ≡ some (Meant b ns (some (at n)), rest))
        (sym h)
        (read-fields b (registered (is_remote (some this) (at (some d))) reg a.ptr a.id) ns a.id
            d.host d.pid rest v.0 v.3.0 v.1
          ∙ ap (λ r. some (r, rest)) (resolve-written b reg ns a.ptr a.id d v t))

  -- What was written is fit to be read.
  abbrev IsWritable : Registry → Option Addr → Type 0
  IsWritable reg none = Unit {0}
  IsWritable reg (some a) = (d : NodeData) × (a.node ≡ some d) × IsActor reg a.ptr a.id d

  -- The address of an actor, or an invalid one, that `write` put into a stream is read back by
  -- `read` in a process of the same node, whatever follows it: an invalid address as such, an actor
  -- of this node as that actor, and one of another node as the address of the proxy that
  -- `get_or_put` gives for the node and the ID written. IDs are 32-bit integers, not both zero, host
  -- IDs are without a zero byte, and the registry has no other actor by the ID.
  pub read-write :
      (b : B) (reg : Registry) (ns : Proxies NodeId) (addr : Option Addr) (rest : Bytes)
      → IsWritable reg addr
      → IsText (some this)
      → let w = write (some this) reg addr in
        read alive be (some this) b w.1 ns (w.0 ++ rest) ≡ some (Meant b ns addr, rest)
  unfolding write
  read-write b reg ns none rest v t =
      read-fields b reg ns 0 (replicate host_id_size 0) 0 rest (omega arith) refl (omega arith)
      ∙ ap (λ r. some (r, rest)) (resolve-none b reg ns (replicate host_id_size 0))
  read-write b reg ns (some a) rest (d, h, v) t = write-fields b reg ns a d rest h v t
