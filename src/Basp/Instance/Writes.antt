-- ===== src/Basp/Instance/Writes.antt =====
-- The events of an instance that put bytes into write buffers.
use boost_actor.Common.{◌≡◌, refl, List, [], ◌∷◌, ◌++◌, nat_eq, map}
use boost_actor.Common.Assoc.{option_eq}
use boost_actor.Basp.Routing.{Handle, RoutingEvent}
use boost_actor.Basp.Instance.Write.{Written}
use boost_actor.Basp.Instance.{
  Event, table, wrote, flushed, deliver, learned_new_node_directly, learned_new_node_indirectly,
  finalize_handshake, message_forwarded, message_forwarding_failed, message_sent,
  message_sending_failed, proxy_announced, kill_proxy,
}

-- What is put into write buffers, in order.
unfoldable pub writes : {N : Type 0} → List (Event N) → List (Handle × Written N)
writes [] = []
writes (wrote hdl w ∷ events) = (hdl, w) ∷ writes events
writes (table _ ∷ events) = writes events
writes (flushed _ ∷ events) = writes events
writes (message_forwarded _ _ ∷ events) = writes events
writes (message_forwarding_failed _ _ ∷ events) = writes events
writes (finalize_handshake _ _ ∷ events) = writes events
writes (learned_new_node_directly _ _ ∷ events) = writes events
writes (learned_new_node_indirectly _ ∷ events) = writes events
writes (message_sent _ _ _ _ _ ∷ events) = writes events
writes (message_sending_failed _ _ _ _ ∷ events) = writes events
writes (deliver _ _ _ _ _ _ ∷ events) = writes events
writes (proxy_announced _ _ ∷ events) = writes events
writes (kill_proxy _ _ _ ∷ events) = writes events

pub writes-hooks :
    {N : Type 0} (hooks : List (RoutingEvent N)) (events : List (Event N))
    → writes (map table hooks ++ events) ≡ writes events
unfolding writes
writes-hooks [] events = refl
writes-hooks (hook ∷ hooks) events = writes-hooks hooks events
