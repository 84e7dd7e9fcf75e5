-- ===== src/LocalActor/Loop/Exits.antt =====
-- local_actor.cpp: an exit message ends an actor that does not trap it.
use boost_actor.Common.{
  List, ℕ, ◌≡◌, ◌≢◌, refl, ap, subst, sym, ◌∙◌, arith, true, false, not, ◌||◌, ◌⊎◌, [], Option,
  none, some, if◌then◌else◌, if_cases, ◌==◌, nat_eq,
}
use boost_actor.AbstractActor.{not_exited, Store, remove_link, remove_backlink}
use boost_actor.AbstractActor
use boost_actor.MessageId.{is_response, MessageId}
use boost_actor.Mailbox.{SingleReaderQueue}
use boost_actor.Mailbox.Cache.{im_success}
use boost_actor.LocalActor.{
  LocalActor, Behavior, MailboxElement, exit_msg, exit_reason, has_behavior,
}
use boost_actor.LocalActor.Requests.{awaited_response_id}
use boost_actor.LocalActor.Handlers.{Program, quit, run_actions}
use boost_actor.LocalActor.Invoke.{
  MsgType, non_normal_exit, filter_exit, filter_request, filter_msg, invoke_message, invoke_by_type,
  kill, normal_exit_reason, unlink_from,
}
use boost_actor.LocalActor.Resume.{done, end_actor, actor_done, cleanup}
use boost_actor.LocalActor.Resume.Ends.{IsEnded, end_actor-IsEnded}
use boost_actor.LocalActor.Loop.{returns, with_message, after_invoke, after_success, bhvr_for_next}

-- Unlinking says nothing about exits.
exit_reason-remove_link :
    (st : Store) (self k : ℕ) (o : Option ℕ)
    → ((remove_link st self o).1 k).exit_reason ≡ (st k).exit_reason
unfolding remove_link remove_backlink
exit_reason-remove_link st self k none = refl
exit_reason-remove_link st self k (some other) = ground arith

exit_reason-cleanup :
    (st : Store) (self reason : ℕ)
    → (st self).exit_reason ≡ not_exited
    → ((AbstractActor.cleanup st self reason).0 self).exit_reason ≡ reason
unfolding AbstractActor.cleanup
exit_reason-cleanup st self reason h = ground arith

abbrev Ends : LocalActor → Option ℕ → ℕ → MsgType × LocalActor → Type 0
Ends s source reason r = r ≡ (non_normal_exit, quit (unlink_from s source) reason)

filter_exit-Ends :
    (s : LocalActor) (source : Option ℕ) (reason : ℕ)
    → reason ≢ normal_exit_reason
    → (reason ≡ kill) ⊎ (s.trap_exit ≡ false)
    → Ends s source reason (filter_exit s source reason)
unfolding filter_exit
filter_exit-Ends s source reason h k =
    if_cases (Ends s source reason) (reason == kill) (λ e. refl)
      (λ e.
        if_cases (Ends s source reason) s.trap_exit (λ t. absurd (ground arith))
          (λ t.
            if_cases (Ends s source reason) (reason == normal_exit_reason)
              (λ n. absurd (ground arith)) (λ n. refl)))

filter_exit_msg :
    (p : Program) (s : LocalActor) (sender source : Option ℕ) (mid : MessageId) (reason : ℕ)
    → filter_request p s sender mid (exit_msg source reason) ≡ filter_exit s source reason
unfolding filter_request
filter_exit_msg p s none source mid reason = refl
filter_exit_msg p s (some a) source mid reason = refl

filter_msg-Ends :
    (p : Program) (s : LocalActor) (source : Option ℕ) (reason : ℕ) (e : MailboxElement)
    → is_response e.mid ≡ false
    → e.msg ≡ exit_msg source reason
    → reason ≢ normal_exit_reason
    → (reason ≡ kill) ⊎ (s.trap_exit ≡ false)
    → Ends s source reason (filter_msg p s e)
unfolding filter_msg filter_request
filter_msg-Ends p s source reason e r m h k =
    if_cases (Ends s source reason) (is_response e.mid) (λ t. absurd (ground arith))
      (λ t.
        subst (λ msg. Ends s source reason (filter_request p s e.sender e.mid msg)) (sym m)
          (filter_exit_msg p s e.sender source e.mid reason ∙ filter_exit-Ends s source reason h k))

done_by_reason :
    (p : Program) (s : LocalActor)
    → s.planned_exit_reason ≢ not_exited
    → actor_done p s ≡ (true, end_actor p s)
unfolding actor_done
done_by_reason p s h =
    if_cases (λ x. x ≡ (true, end_actor p s))
      (not (has_behavior s) || not (s.planned_exit_reason == not_exited)) (λ e. refl)
      (λ e. absurd (ground arith))

reason_kept : (r : ℕ) → r ≢ not_exited → (if r == not_exited then normal_exit_reason else r) ≡ r
reason_kept r h = ground arith

end_actor-exit_reason :
    (p : Program) (s : LocalActor)
    → p.on_exit ≡ []
    → exit_reason s ≡ not_exited
    → s.planned_exit_reason ≢ not_exited
    → exit_reason (end_actor p s) ≡ s.planned_exit_reason
unfolding end_actor run_actions cleanup
end_actor-exit_reason p s x e n =
    rw x (exit_reason-cleanup s.actors s.address _ e ∙ reason_kept s.planned_exit_reason n)

after_success-done :
    (p : Program) (s : LocalActor) (h : ℕ)
    → s.planned_exit_reason ≢ not_exited
    → let s1 = record s { bhvr_stack = record s.bhvr_stack { erased_elements = [] } } in
      after_success p h s ≡ some (returns done (end_actor p s1))
unfolding after_success
after_success-done p s h n =
    rw
      (
        after_success,
        done_by_reason p (record s { bhvr_stack = record s.bhvr_stack { erased_elements = [] } }) n,
      )
      refl

invoke_exit :
    (p : Program) (s : LocalActor) (ptr : ℕ) (bhvr : Behavior) (mid : MessageId) (source : Option ℕ)
    (reason : ℕ)
    → Ends s source reason (filter_msg p s (s.memory ptr))
    → invoke_message p s ptr bhvr mid ≡ (im_success, quit (unlink_from s source) reason)
unfolding invoke_message invoke_by_type
invoke_exit p s ptr bhvr mid source reason e =
    ap (λ (x : MsgType × LocalActor). invoke_by_type p x.1 ptr bhvr mid x.0) e

-- For an actor without code of its own for its exit that has not exited, and an exit message with a
-- reason that is not normal: if the reason is `kill`, or the actor does not trap exits, the round
-- that reads the message ends the actor with this reason, whatever its behavior and whether or not
-- it awaits a response.
pub with_message-exit_msg :
    (p : Program) (s : LocalActor) (q : SingleReaderQueue) (meanwhile : List MailboxElement)
    (h ptr reason : ℕ) (source : Option ℕ)
    → p.on_exit ≡ []
    → exit_reason s ≡ not_exited
    → is_response (s.memory ptr).mid ≡ false
    → (s.memory ptr).msg ≡ exit_msg source reason
    → reason ≢ not_exited
    → reason ≢ normal_exit_reason
    → (reason ≡ kill) ⊎ (s.trap_exit ≡ false)
    → (s' : LocalActor) × (with_message p h meanwhile s (some (some ptr, q))
        ≡ some (returns done s'))
      × IsEnded s'
      × (exit_reason s' ≡ reason)
unfolding with_message after_invoke
with_message-exit_msg p s q meanwhile h ptr reason source x alive r m n normal k =
    let s1 = record s { mailbox = q } in
    let t = quit (unlink_from s1 source) reason in
    let t1 = record t { bhvr_stack = record t.bhvr_stack { erased_elements = [] } } in
    (
      end_actor p t1,
      ap (λ y. after_invoke p h ptr y)
            (invoke_exit p s1 ptr (bhvr_for_next s1) (awaited_response_id s1) source reason
              (filter_msg-Ends p s1 source reason (s.memory ptr) r m normal k))
          ∙ after_success-done p t h n,
      end_actor-IsEnded p t1,
      end_actor-exit_reason p t1 x
          (exit_reason-remove_link s.actors s.address s.address source ∙ alive) n,
    )
