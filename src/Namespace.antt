-- ===== src/Namespace.antt =====
-- libboost_actor_core/src/actor_namespace.cpp, with `anchor::get` of actor_proxy.cpp: the proxies
-- of this process for actors of other nodes. Proxies are numbers, and stand for their anchors
-- too, since a proxy has one anchor of its own; `alive` tells at the time of a call which anchors
-- have not expired. A null pointer is `none`. Elements of a map that is destroyed are destroyed
-- in the order in which it is walked.
pub mod Entries
pub mod Shared
mod Tests
pub mod Address
pub mod Erase
use boost_actor.Common.{
  ℕ, Bool, List, [], ◌∷◌, ◌++◌, Option, none, some, if◌then◌else◌, ◌==◌, EqualityComparable, nat_eq,
  ltb, length, null,
}
use boost_actor.Common.Assoc.{find, assign, erase as erase_key}

-- `exit_reason::remote_link_unreachable`
abbrev pub remote_link_unreachable : ℕ
remote_link_unreachable = 257

-- `proxy_entry`: its anchor
abbrev pub ProxyEntry : Type 0
ProxyEntry = Option ℕ

abbrev pub ProxyMap : Type 0
ProxyMap = List (ℕ × ProxyEntry)

abbrev pub Proxies : Type 0 → Type 0
Proxies N = List (N × ProxyMap)

-- A call of `kill_proxy`: the proxy and the reason.
pub data Event : Type 0 where
  kill_proxy : ℕ → ℕ → Event

-- `anchor::get`
unfoldable pub anchor_get : (ℕ → Bool) → ℕ → Option ℕ
anchor_get alive p = if alive p then some p else none

-- The proxy behind an entry, none where the anchor is null.
unfoldable pub proxy_of : (ℕ → Bool) → ProxyEntry → Option ℕ
unfolding anchor_get
proxy_of alive none = none
proxy_of alive (some p) = anchor_get alive p

abbrev pub killed : ℕ → Option ℕ → List Event
killed rsn none = []
killed rsn (some p) = kill_proxy p rsn ∷ []

-- `proxy_entry::reset`; the entry is null afterwards.
pub reset : (ℕ → Bool) → ProxyEntry → ℕ → ProxyEntry × List Event
reset alive entry rsn = (none, killed rsn (proxy_of alive entry))

-- `~proxy_entry` of each entry of a map
pub destroyed : (ℕ → Bool) → ProxyMap → List Event
unfolding reset
destroyed alive [] = []
destroyed alive ((aid, entry) ∷ m) =
    (reset alive entry remote_link_unreachable).1 ++ destroyed alive m

-- `submap[aid] = entry` of a `std::map`, which is walked in the order of its keys.
pub assign_ordered : ℕ → ProxyEntry → ProxyMap → ProxyMap
assign_ordered aid entry [] = (aid, entry) ∷ []
assign_ordered aid entry ((k, old) ∷ m) =
    if k == aid
    then (aid, entry) ∷ m
    else (if ltb aid k then (aid, entry) ∷ (k, old) ∷ m else (k, old) ∷ assign_ordered aid entry m)

abbrev pub or_empty : Option ProxyMap → ProxyMap
or_empty none = []
or_empty (some submap) = submap

abbrev pub or_null : Option ProxyEntry → ProxyEntry
or_null none = none
or_null (some entry) = entry

-- `if (ptr) result.push_back(std::move(ptr))`, with what the rest of the loop adds
abbrev pub push_back_if : Option ℕ → List ℕ → List ℕ
push_back_if none rest = rest
push_back_if (some p) rest = p ∷ rest

-- The proxies of the entries of a map, those that have expired left out.
pub proxies_in : (ℕ → Bool) → ProxyMap → List ℕ
proxies_in alive [] = []
proxies_in alive ((aid, entry) ∷ m) = push_back_if (proxy_of alive entry) (proxies_in alive m)

-- What the operation `get` gives: it calls through the anchor that it finds, which may be null.
pub data GetResult : Type 0 where
  null_anchor : GetResult
  got : Option ℕ → GetResult

-- An entry whose proxy has expired is erased.
pub after_get : ℕ → ProxyMap → Option ℕ → GetResult × ProxyMap
after_get aid submap none = (got none, erase_key aid submap)
after_get aid submap (some p) = (got (some p), submap)

pub get_in : (ℕ → Bool) → ℕ → ProxyMap → Option ProxyEntry → GetResult × ProxyMap
unfolding anchor_get after_get
get_in alive aid submap none = (got none, submap)
get_in alive aid submap (some none) = (null_anchor, submap)
get_in alive aid submap (some (some p)) = after_get aid submap (anchor_get alive p)

-- `backend`, with the state `B` that its calls change
pub record Backend (N B : Type 0) : Type 0 where
  pub make_proxy : B → N → ℕ → Option ℕ × B

-- The anchor that is in the map after the call of `make_proxy`.
abbrev pub replaced : ProxyEntry → Option ℕ → ProxyEntry
replaced anchor none = anchor
replaced anchor (some p) = some p

module _ {N : Type 0} ⦃e : EqualityComparable N⦄ where
  -- `proxies_[node]`
  abbrev pub submap_of : Proxies N → N → ProxyMap
  submap_of ns node = or_empty (find node ns)

  pub count_proxies : Proxies N → N → ℕ
  count_proxies ns node = length (submap_of ns node)

  pub get_all : (ℕ → Bool) → Proxies N → List ℕ
  get_all alive [] = []
  get_all alive ((node, submap) ∷ ns) = proxies_in alive submap ++ get_all alive ns

  pub get_all_of : (ℕ → Bool) → Proxies N → N → List ℕ
  get_all_of alive ns node = proxies_in alive (submap_of ns node)

  pub get : (ℕ → Bool) → Proxies N → N → ℕ → GetResult × Proxies N
  unfolding get_in
  get alive ns node aid =
      let submap = submap_of ns node in
      let r = get_in alive aid submap (find aid submap) in (r.0, assign node r.1 ns)

  -- The second half of `get_or_put`, on the proxy found behind the anchor.
  unfoldable pub put_missing :
      {B : Type 0}
      → Backend N B
      → B
      → Proxies N
      → N
      → ℕ
      → ProxyEntry
      → Option ℕ
      → Option ℕ × Proxies N × B
  put_missing be b ns node aid anchor (some p) =
      (some p, assign node (assign_ordered aid anchor (submap_of ns node)) ns, b)
  put_missing be b ns node aid anchor none =
      let (result, b') = be.make_proxy b node aid in
      let entry = replaced anchor result in
      (result, assign node (assign_ordered aid entry (submap_of ns node)) ns, b')

  unfoldable pub get_or_put :
      {B : Type 0} → (ℕ → Bool) → Backend N B → B → Proxies N → N → ℕ → Option ℕ × Proxies N × B
  unfolding put_missing
  get_or_put alive be b ns node aid =
      let anchor = or_null (find aid (submap_of ns node)) in
      put_missing be b ns node aid anchor (proxy_of alive anchor)

  pub empty : Proxies N → Bool
  empty ns = null ns

  -- `erase(const key_type&)`
  pub erase_node : (ℕ → Bool) → Proxies N → N → Proxies N × List Event
  erase_node alive ns inf = (erase_key inf ns, destroyed alive (submap_of ns inf))

  -- The rest of `erase` of one proxy, once its entry is found in `submap`.
  pub erase_in :
      (ℕ → Bool) → Proxies N → N → ℕ → ℕ → ProxyMap → Option ProxyEntry → Proxies N × List Event
  unfolding reset
  erase_in alive ns inf aid rsn submap none = (ns, [])
  erase_in alive ns inf aid rsn submap (some entry) =
      let rest = erase_key aid submap in
      (if null rest then erase_key inf ns else assign inf rest ns, (reset alive entry rsn).1)

  -- `erase(const key_type&, actor_id, uint32_t)`, on what is found for the node.
  pub erase_found : (ℕ → Bool) → Proxies N → N → ℕ → ℕ → Option ProxyMap → Proxies N × List Event
  unfolding erase_in
  erase_found alive ns inf aid rsn none = (ns, [])
  erase_found alive ns inf aid rsn (some submap) =
      erase_in alive ns inf aid rsn submap (find aid submap)

  pub erase_proxy : (ℕ → Bool) → Proxies N → N → ℕ → ℕ → Proxies N × List Event
  unfolding erase_found
  erase_proxy alive ns inf aid rsn = erase_found alive ns inf aid rsn (find inf ns)

  pub clear : (ℕ → Bool) → Proxies N → Proxies N × List Event
  clear alive ns = ([], all_destroyed ns)
    where
      all_destroyed : Proxies N → List Event
      all_destroyed [] = []
      all_destroyed ((node, submap) ∷ ns) = destroyed alive submap ++ all_destroyed ns
