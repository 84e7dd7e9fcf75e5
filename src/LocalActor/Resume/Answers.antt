-- ===== src/LocalActor/Resume/Answers.antt =====
-- sync_request_bouncer.cpp: what is answered when an actor has ended.
use boost_actor.Common.{
  Option, Option-cases, ℕ, ◌≡◌, ◌≢◌, refl, subst, sym, arith, true, false, List, [], ◌∷◌, ◌++◌,
  none, some, Bool-cases, inl, inr, nat_eq,
}
use boost_actor.AbstractActor.{not_exited}
use boost_actor.MessageId.{is_request, response_id}
use boost_actor.LocalActor.{MailboxElement, Event, sent, sync_exited_msg}
use boost_actor.LocalActor.Resume.{bounce_reason, bounce_to, bounce, bounce_all}

bounce_reason_of : (r : ℕ) → r ≢ not_exited → bounce_reason r ≡ r
bounce_reason_of r h = ground arith

pub bounce_nobody : (r : ℕ) (e : MailboxElement) → e.sender ≡ none → bounce r e ≡ []
unfolding bounce
bounce_nobody r e h = rw h refl

bounce_other : (r : ℕ) (e : MailboxElement) → is_request e.mid ≡ false → bounce r e ≡ []
unfolding bounce
bounce_other r e h = no_answer e.sender
  where
    no_answer : (o : Option ℕ) → bounce_to (bounce_reason r) o e.mid ≡ []
    no_answer none = refl
    no_answer (some sender) = rw h refl

pub bounce_one :
    (r sender : ℕ) (e : MailboxElement)
    → r ≢ not_exited
    → e.sender ≡ some sender
    → is_request e.mid ≡ true
    → bounce r e
      ≡ sent sender
          (record { sender = none; mid = response_id e.mid; msg = sync_exited_msg sender r })
        ∷ []
unfolding bounce
bounce_one r sender e h f g = rw (f, g) (rw (bounce_reason_of r h) refl)

-- The answers to elements that are left behind: the sender of each request gets one response with
-- the reason, in the order of the elements; nothing else is answered.
pub data Answered (reason : ℕ) (memory : ℕ → MailboxElement) : List ℕ → List Event → Type 0 where
  none_left : Answered reason memory [] []
  answered :
      {a : ℕ} {l : List ℕ} {es : List Event} {sender : ℕ}
      → is_request (memory a).mid ≡ true
      → (memory a).sender ≡ some sender
      → Answered reason memory l es
      → Answered reason memory (a ∷ l) (
          sent sender (record {
            sender = none;
            mid = response_id (memory a).mid;
            msg = sync_exited_msg sender reason;
          })
          ∷ es)
  no_request :
      {a : ℕ} {l : List ℕ} {es : List Event}
      → is_request (memory a).mid ≡ false
      → Answered reason memory l es
      → Answered reason memory (a ∷ l) es
  no_sender :
      {a : ℕ} {l : List ℕ} {es : List Event}
      → (memory a).sender ≡ none
      → Answered reason memory l es
      → Answered reason memory (a ∷ l) es

pub bounce_all-Answered :
    (reason : ℕ) (memory : ℕ → MailboxElement) (l : List ℕ)
    → reason ≢ not_exited
    → Answered reason memory l (bounce_all reason memory l)
unfolding bounce_all
bounce_all-Answered reason memory [] h = none_left
bounce_all-Answered reason memory (a ∷ l) h =
    let e = memory a in
    let rest = bounce_all-Answered reason memory l h in
    let P : List Event → Type 0 =
      λ es. Answered reason memory (a ∷ l) (es ++ bounce_all reason memory l) in
    elim (Bool-cases (is_request e.mid)) [
      | inr other ↦ subst P (sym (bounce_other reason e other)) (no_request other rest)
      | inl r ↦ elim (Option-cases e.sender) [
        | inl nobody ↦ subst P (sym (bounce_nobody reason e nobody)) (no_sender nobody rest)
        | inr (sender, f) ↦ subst P (sym (bounce_one reason sender e h f r)) (answered r f rest)
      ]
    ]
