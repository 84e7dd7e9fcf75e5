-- ===== src/Basp/Proxies/Tests.antt =====
-- A broker that talks to node 1 over handle 11, which it has blacklisted as a hop towards node 3.
use boost_actor.Common.{ℕ, ◌≡◌, refl, true, [], ◌∷◌, Option, some, nat_eq}
use boost_actor.Common.Assoc.{find, assign, emplace_set, option_eq}
use boost_actor.Namespace.{Proxies, get_or_put, proxy_of}
use boost_actor.Basp.Routing.{lookup, lookup_direct, first_hop, add_indirect, blacklisted}
use boost_actor.Basp.Proxies.{BrokerState, make_proxy}
use boost_actor.Basp.Proxies.Routed.{get_or_put-blacklisted}

abbrev broker : BrokerState ℕ
broker = record {
  table = record {
    direct_by_hdl = (11, some 1) ∷ [];
    direct_by_nid = (some 1, 11) ∷ [];
    indirect = [];
    blacklist = (some 3, some 1 ∷ []) ∷ [];
  };
  context_id = some 1;
  context_hdl = 11;
  next_proxy = 0;
  events = [];
}

abbrev no_proxies : Proxies (Option ℕ)
no_proxies = []

get_or_put-blacklisted_example : blacklisted broker.table (some 1) (some 3) ≡ true
unfolding find lookup_direct get_or_put proxy_of make_proxy lookup add_indirect blacklisted
get_or_put-blacklisted_example =
    get_or_put-blacklisted broker (some 3) (λ _. true) no_proxies 7 refl refl refl

-- An actor of node 4 gets the proxy 0, with node 1 as the hop.
proxy_of_node_4 : (make_proxy broker (some 4) 7).0 ≡ some 0
unfolding find assign emplace_set lookup_direct make_proxy lookup add_indirect blacklisted first_hop
proxy_of_node_4 = refl
