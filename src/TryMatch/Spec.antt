-- ===== src/TryMatch/Spec.antt =====
-- What a pattern means: a wildcard stands for any number of elements, any other entry for one
-- element of its kind.
use boost_actor.Common.{◌≡◌, true, false, List, [], ◌∷◌}
use boost_actor.TryMatch.{Element, MetaElement, is_wildcard, inspect}

pub data Matches : List MetaElement → List Element → Type 0 where
  done : Matches [] []
  none_of :
      {p : MetaElement} {ps : List MetaElement} {xs : List Element}
      → is_wildcard p ≡ true
      → Matches ps xs
      → Matches (p ∷ ps) xs
  one_more :
      {p : MetaElement} {ps : List MetaElement} {x : Element} {xs : List Element}
      → is_wildcard p ≡ true
      → Matches (p ∷ ps) xs
      → Matches (p ∷ ps) (x ∷ xs)
  exactly :
      {p : MetaElement} {ps : List MetaElement} {x : Element} {xs : List Element}
      → is_wildcard p ≡ false
      → inspect p x ≡ true
      → Matches ps xs
      → Matches (p ∷ ps) (x ∷ xs)
