-- ===== src/Basp/Routing.antt =====
-- `routing_table`: direct connections in both directions, next hops towards other nodes, and
-- blacklisted hops. Containers are walked in the order of their lists. The calls of an
-- `erase_callback` and the hooks notified are returned as events, in the order made.
pub mod Erase
pub mod Direct
pub mod Blacklist
pub mod Lookup
pub mod Keeps
mod Tests
use boost_actor.Common.{
  ℕ, suc, ◌+◌, Bool, true, false, ◌&&◌, ◌||◌, not, List, [], ◌∷◌, ◌++◌, Option, none, some,
  if◌then◌else◌, ◌==◌, EqualityComparable, nat_eq, length, null, map,
}
use boost_actor.Common.Assoc.{
  find, assign, erase as erase_key, contains, emplace_set, erase_set, option_eq,
}

-- `connection_handle`; the invalid one is `none` where a result may be that.
abbrev pub Handle : Type 0
Handle = ℕ

module _ (N : Type 0) where
  pub record RoutingTable : Type 0 where
    pub direct_by_hdl : List (Handle × Option N)
    pub direct_by_nid : List (Option N × Handle)
    pub indirect : List (Option N × List (Option N))
    pub blacklist : List (Option N × List (Option N))

  pub record Route : Type 0 where
    pub next_hop : Option N
    pub hdl : Handle

  -- `called` is a call of the callback that the operation was given.
  pub data RoutingEvent : Type 0 where
    called : Option N → RoutingEvent
    connection_lost new_connection_established : Option N → RoutingEvent
    new_route_added route_lost : Option N → Option N → RoutingEvent

-- `map[k]` for reading: a missing set is empty.
abbrev pub hops_of : {A : Type 0} → Option (List A) → List A
hops_of none = []
hops_of (some hops) = hops

module _ {N : Type 0} ⦃e : EqualityComparable N⦄ where
  unfoldable pub empty_table : RoutingTable N
  empty_table = record { direct_by_hdl = []; direct_by_nid = []; indirect = []; blacklist = [] }

  -- `lookup_direct(const connection_handle&)`
  unfoldable pub lookup_direct_hdl : RoutingTable N → Handle → Option N
  lookup_direct_hdl t hdl = elim (find hdl t.direct_by_hdl) [ none ↦ none | some nid ↦ nid ]

  -- `lookup_direct(const node_id&)`
  unfoldable pub lookup_direct : RoutingTable N → Option N → Option Handle
  lookup_direct t nid = find nid t.direct_by_nid

  pub lookup_indirect : RoutingTable N → Option N → Option N
  lookup_indirect t nid = elim (find nid t.indirect) [
    | none ↦ none
    | some hops ↦ elim hops [ [] ↦ none | hop ∷ _ ↦ hop ]
  ]

  -- The loop over the hops of an indirect route: the first one that is connected, and the hops
  -- left; those before it are erased.
  unfoldable pub first_hop : RoutingTable N → List (Option N) → Option (Route N) × List (Option N)
  first_hop t [] = (none, [])
  first_hop t (hop ∷ hops) =
      let rest = first_hop t hops in
      elim (lookup_direct t hop) [
        | some hdl ↦ (some (record { next_hop = hop; hdl = hdl }), hop ∷ hops)
        | none ↦ rest
      ]

  unfoldable pub lookup : RoutingTable N → Option N → Option (Route N) × RoutingTable N
  lookup t target = elim (lookup_direct t target) [
    | some hdl ↦ (some (record { next_hop = target; hdl = hdl }), t)
    | none ↦ elim (find target t.indirect) [
      | none ↦ (none, t)
      | some hops ↦
          let (r, hops') = first_hop t hops in
          (r, record t { indirect = assign target hops' t.indirect })
    ]
  ]

  -- The second half of `blacklist`, on what was found as the hops towards `dest`.
  pub drop_hop : RoutingTable N → Option N → Option N → Option (List (Option N)) → RoutingTable N
  drop_hop t hop dest none = t
  drop_hop t hop dest (some hops) =
      let hops' = erase_set hop hops in
      if null hops'
      then record t { indirect = erase_key dest t.indirect }
      else record t { indirect = assign dest hops' t.indirect }

  -- The operation `blacklist`.
  pub blacklist_hop : RoutingTable N → Option N → Option N → RoutingTable N
  unfolding drop_hop
  blacklist_hop t hop dest =
      let hops = hops_of (find dest t.blacklist) in
      let t' = record t { blacklist = assign dest (emplace_set hop hops) t.blacklist } in
      drop_hop t' hop dest (find dest t.indirect)

  unfoldable pub erase_direct : RoutingTable N → Handle → RoutingTable N × List (RoutingEvent N)
  erase_direct t hdl = elim (find hdl t.direct_by_hdl) [
    | none ↦ (t, [])
    | some nid ↦ (
      record t {
        direct_by_nid = erase_key nid t.direct_by_nid;
        direct_by_hdl = erase_key hdl t.direct_by_hdl;
      },
      called nid ∷ connection_lost nid ∷ [],
    )
  ]

  -- The middleman calls no hook if it has none; a hook that is not there sees no event.
  unfoldable pub erase_indirect :
      RoutingTable N → Option N → Bool × RoutingTable N × List (RoutingEvent N)
  erase_indirect t dest = elim (find dest t.indirect) [
    | none ↦ (false, t, [])
    | some hops ↦ (
      true,
      record t { indirect = erase_key dest t.indirect },
      map (λ nid. route_lost nid dest) hops,
    )
  ]

  -- The assertions of the source, that neither key is in the table, are hypotheses where needed:
  -- `emplace` keeps an entry that is there.
  unfoldable pub add_direct :
      RoutingTable N → Handle → Option N → RoutingTable N × List (RoutingEvent N)
  add_direct t hdl nid = (
    record t {
      direct_by_hdl = elim (find hdl t.direct_by_hdl) [
        | none ↦ assign hdl nid t.direct_by_hdl
        | some _ ↦ t.direct_by_hdl
      ];
      direct_by_nid = elim (find nid t.direct_by_nid) [
        | none ↦ assign nid hdl t.direct_by_nid
        | some _ ↦ t.direct_by_nid
      ];
    },
    new_connection_established nid ∷ [],
  )

  -- `blacklist_.find(dest)` and `count(hop)`
  unfoldable pub blacklisted : RoutingTable N → Option N → Option N → Bool
  blacklisted t hop dest = contains hop (hops_of (find dest t.blacklist))

  unfoldable pub add_indirect :
      RoutingTable N → Option N → Option N → Bool × RoutingTable N × List (RoutingEvent N)
  add_indirect t hop dest =
      let hops = hops_of (find dest t.indirect) in
      if blacklisted t hop dest then (false, t, []) else (
        null hops,
        record t { indirect = assign dest (emplace_set hop hops) t.indirect },
        new_route_added hop dest ∷ [],
      )

  pub reachable : RoutingTable N → Option N → Bool
  reachable t dest = elim (find dest t.direct_by_nid) [
    | some _ ↦ true
    | none ↦ elim (find dest t.indirect) [ some _ ↦ true | none ↦ false ]
  ]

  -- The second half of `erase`, on the direct connection to `dest`.
  pub erase_connection :
      RoutingTable N
      → Option N
      → ℕ
      → List (RoutingEvent N)
      → ℕ × RoutingTable N × List (RoutingEvent N)
  erase_connection t dest res events = elim (lookup_direct t dest) [
    | none ↦ (res, t, events)
    | some hdl ↦ (
      res + 1,
      record t {
        direct_by_hdl = erase_key hdl t.direct_by_hdl;
        direct_by_nid = erase_key dest t.direct_by_nid;
      },
      events ++ connection_lost dest ∷ [],
    )
  ]

  -- The callback and the hook for each hop in turn.
  pub hop_events : Option N → List (Option N) → List (RoutingEvent N)
  hop_events dest [] = []
  hop_events dest (nid ∷ hops) = called nid ∷ route_lost nid dest ∷ hop_events dest hops

  -- The operation `erase`.
  unfoldable pub erase_node : RoutingTable N → Option N → ℕ × RoutingTable N × List (RoutingEvent N)
  erase_node t dest = elim (find dest t.indirect) [
    | none ↦ erase_connection t dest 0 (called dest ∷ [])
    | some hops ↦
        erase_connection (record t { indirect = erase_key dest t.indirect }) dest (length hops)
          (called dest ∷ hop_events dest hops)
  ]
