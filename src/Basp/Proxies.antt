-- ===== src/Basp/Proxies.antt =====
-- `basp_broker_state::make_proxy` of libboost_actor_io/src/basp_broker.cpp: the backend of the
-- namespace. The broker's reaction to a node that it learns of, the message that announces the
-- proxy, the flush of a connection, the functor that is attached to the proxy and the hook are
-- events.
pub mod Routed
mod Tests
use boost_actor.Common.{
  ℕ, ◌+◌, Bool, true, false, ◌||◌, List, [], ◌∷◌, ◌++◌, Option, none, some, if◌then◌else◌, ◌==◌,
  EqualityComparable, nat_eq, map,
}
use boost_actor.Common.Assoc.{option_eq}
use boost_actor.Namespace.{Backend}
use boost_actor.Basp.Routing.{
  Handle, RoutingTable, Route, RoutingEvent, lookup, lookup_direct, add_indirect,
}

module _ (N : Type 0) where
  -- An announcement is written to the buffer of the first handle.
  pub data BrokerEvent : Type 0 where
    routing : RoutingEvent N → BrokerEvent
    learned_new_node_indirectly : Option N → BrokerEvent
    functor_attached : ℕ → BrokerEvent
    announced : Handle → Option N → ℕ → BrokerEvent
    flushed : Handle → BrokerEvent
    new_remote_actor : ℕ → BrokerEvent

  -- The parts of the state that `make_proxy` uses: `this_context` by its ID and handle, and the
  -- number of the next proxy.
  pub record BrokerState : Type 0 where
    pub table : RoutingTable N
    pub context_id : Option N
    pub context_hdl : Handle
    pub next_proxy : ℕ
    pub events : List BrokerEvent

module _ {N : Type 0} ⦃e : EqualityComparable N⦄ where
  pub learn_from_add : BrokerState N → Option N → BrokerState N
  learn_from_add s nid =
      let (fresh, t, evs) = add_indirect s.table s.context_id nid in
      record s {
        table = t;
        events =
            s.events
            ++ map routing evs
            ++ (if fresh then learned_new_node_indirectly nid ∷ [] else []);
      }

  -- A node that is neither the peer nor connected is learned as one behind the peer.
  pub learn_route : BrokerState N → Option N → BrokerState N
  unfolding learn_from_add
  learn_route s nid =
      if nid == s.context_id
      then s
      else (elim (lookup_direct s.table nid) [ some _ ↦ s | none ↦ learn_from_add s nid ])

  pub proxy_over :
      BrokerState N → Option N → ℕ → Option (Route N) × RoutingTable N → Option ℕ × BrokerState N
  proxy_over s nid aid (none, t) = (none, record s { table = t })
  proxy_over s nid aid (some path, t) = (
    some s.next_proxy,
    record s {
      table = t;
      next_proxy = s.next_proxy + 1;
      events =
          s.events
          ++ (functor_attached s.next_proxy
              ∷ announced s.context_hdl nid aid
              ∷ flushed path.hdl
              ∷ new_remote_actor s.next_proxy
              ∷ []);
    },
  )

  abbrev pub invalid_target : Option N → ℕ → Bool
  invalid_target nid aid = nid == none || aid == 0

  pub make_proxy : BrokerState N → Option N → ℕ → Option ℕ × BrokerState N
  unfolding learn_route proxy_over
  make_proxy s nid aid =
      if invalid_target nid aid
      then (none, s)
      else (let s' = learn_route s nid in proxy_over s' nid aid (lookup s'.table nid))

  abbrev pub broker_backend : Backend (Option N) (BrokerState N)
  broker_backend = record { make_proxy = make_proxy }
