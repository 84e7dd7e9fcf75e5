-- ===== src/LocalActor/Loop/Wakeup.antt =====
-- local_actor.cpp: no wakeup is lost between the read of an empty mailbox and `try_block`.
use boost_actor.Common.{
  ℕ, suc, ◌≡◌, ◌≢◌, refl, ap, subst, sym, ◌∙◌, Bool, true, false, List, [], ◌∷◌, ◌++◌, arith, null,
  append_assoc, append-nil, ◌⊎◌, inl, inr,
}
use boost_actor.Mailbox.{
  SingleReaderQueue, EnqueueResult, success, unblocked_reader, queue_closed, try_block,
}
use boost_actor.Mailbox
use boost_actor.Mailbox.Fifo.{contents}
use boost_actor.Mailbox.Popping.{
  IsReady, ready-IsOpen, enqueue_snoc, enqueue_told, BlocksOrNot, try_block-cases,
}
use boost_actor.LocalActor.{LocalActor, MailboxElement}
use boost_actor.LocalActor.Resume.{
  awaiting_message, enqueue, after_enqueue, arrive, stored, reset_timeout_if_needed,
}
use boost_actor.LocalActor.Loop.{Round, returns, goes_on, no_message}
use boost_actor.LocalActor.Loop.Blocks.{IsIdle, reset_arrive-Keeps, reset_timeout-Keeps}

-- The places in memory that elements get, from the next free one on.
abbrev pub places : ℕ → List MailboxElement → List ℕ
places n [] = []
places n (e ∷ es) = n ∷ places (suc n) es

enqueue_success :
    (s : LocalActor) (e : MailboxElement) (r : EnqueueResult) (q : SingleReaderQueue)
    → r ≡ success
    → after_enqueue s e (r, q) ≡ (false, stored s e q)
unfolding after_enqueue
enqueue_success s e success q h = refl
enqueue_success s e unblocked_reader q h = absurd (ground arith)
enqueue_success s e queue_closed q h = absurd (ground arith)

enqueue_unblocks :
    (s : LocalActor) (e : MailboxElement) (r : EnqueueResult) (q : SingleReaderQueue)
    → r ≡ unblocked_reader
    → after_enqueue s e (r, q) ≡ (true, stored s e q)
unfolding after_enqueue
enqueue_unblocks s e success q h = absurd (ground arith)
enqueue_unblocks s e unblocked_reader q h = refl
enqueue_unblocks s e queue_closed q h = absurd (ground arith)

-- What arrives at an actor that runs is behind all that its mailbox holds.
contents-arrive :
    (s : LocalActor) (es : List MailboxElement)
    → IsReady s.mailbox
    → contents (arrive s es).mailbox ≡ contents s.mailbox ++ places s.next_free es
unfolding arrive enqueue
contents-arrive s [] r = sym (append-nil (contents s.mailbox))
contents-arrive s (e ∷ es) r =
    let (told, q) = Mailbox.enqueue s.mailbox s.next_free in
    let (got, r') = (enqueue_told s.mailbox s.next_free).0 r in
    let snoc = (enqueue_snoc s.mailbox s.next_free (ready-IsOpen s.mailbox r)).1 in
    subst
      (λ (x : Bool × LocalActor).
        contents (arrive x.1 es).mailbox ≡ contents s.mailbox ++ places s.next_free (e ∷ es))
      (sym (enqueue_success s e told q got))
      (contents-arrive (stored s e q) es r'
        ∙ ap (λ l. l ++ places (suc s.next_free) es) snoc
        ∙ append_assoc (contents s.mailbox) (s.next_free ∷ []) (places (suc s.next_free) es))

-- The next sender wakes the actor, and its element is in the mailbox.
abbrev pub IsWoken : LocalActor → Type 0
IsWoken s =
    (e : MailboxElement)
    → let (handed, s') = enqueue s e in (handed ≡ true) × (contents s'.mailbox ≡ s.next_free ∷ [])

woken :
    (s : LocalActor)
    → ((a : ℕ)
        → let (r, q) = Mailbox.enqueue s.mailbox a in
          (r ≡ unblocked_reader) × (contents q ≡ a ∷ []))
    → IsWoken s
unfolding enqueue
woken s w e =
    let (told, q) = Mailbox.enqueue s.mailbox s.next_free in
    let (got, there) = w s.next_free in
    subst (λ (x : Bool × LocalActor). (x.0 ≡ true) × (contents x.1.mailbox ≡ s.next_free ∷ []))
      (sym (enqueue_unblocks s e told q got)) (refl, there)

-- An actor that waits and is woken by the next sender, or goes on.
abbrev pub WaitsOrGoesOn : ℕ → LocalActor → Round → Type 0
WaitsOrGoesOn h t r =
    ((s' : LocalActor) × (contents t.mailbox ≡ []) × (r ≡ returns awaiting_message s') × IsWoken s')
    ⊎ (contents t.mailbox ≢ []) × (r ≡ goes_on h t)

waits_or_goes_on :
    (h : ℕ) (es : List MailboxElement) (s : LocalActor)
    → let t = arrive (reset_timeout_if_needed h s) es in
      BlocksOrNot t.mailbox → WaitsOrGoesOn h t (no_message h es s)
unfolding no_message
waits_or_goes_on h es s (inl (nothing, b, w)) =
    let t = arrive (reset_timeout_if_needed h s) es in
    let s' = record t { mailbox = (try_block t.mailbox).1 } in
    inl (s', nothing, rw b refl, woken s' w)
waits_or_goes_on h es s (inr (something, b)) = inr (something, rw b refl)

-- An actor that runs has read all of its mailbox and finds no message; the elements `es` arrive, any
-- number of them, before it can block. They are in its mailbox, in their order and behind what the
-- actor has sent to itself. If there is anything, the actor goes on with it; if there is nothing, it
-- waits, and whoever sends the next element is told to hand it to the scheduler, with that element in
-- its mailbox. The behavior whose timeout is requested again is not an empty one.
pub no_message-wakes :
    (h : ℕ) (es : List MailboxElement) (s : LocalActor)
    → IsIdle s
    → (reset_timeout_if_needed h s).undefined ≡ false
    → let s1 = reset_timeout_if_needed h s in
      let t = arrive s1 es in
      (contents t.mailbox ≡ contents s1.mailbox ++ places s1.next_free es)
      × WaitsOrGoesOn h t (no_message h es s)
no_message-wakes h es s (ready, read, cached) defined =
    let s1 = reset_timeout_if_needed h s in
    let t = arrive s1 es in
    let k = reset_arrive-Keeps h s es in
    (
      contents-arrive s1 es ((reset_timeout-Keeps h s).ready ready),
      waits_or_goes_on h es s (try_block-cases t.mailbox (k.ready ready) (ap null k.head ∙ read)),
    )
