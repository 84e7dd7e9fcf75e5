-- ===== src/LocalActor/Example.antt =====
-- A user program and some states of an actor of local_actor.cpp, for the tests.
use boost_actor.Common.{ℕ, zero, suc, ◌≡◌, refl, arith, true, false, List, [], ◌∷◌, none, some}
use boost_actor.MessageId.{MessageId, normal, high}
use boost_actor.Mailbox.{SingleReaderQueue, empty_dummy}
use boost_actor.Mailbox.Fifo.{queue}
use boost_actor.LocalActor.{
  LocalActor, MailboxElement, no_behavior, handlers, Duration, invalid, user, exit_msg,
}
use boost_actor.LocalActor.Requests.Numbered.{no_pending, younger, IsNumbered}
use boost_actor.LocalActor.Handlers.{
  Program, HandlerResult, no_match, returned, Action, sends, sync_sends,
}
use boost_actor.LocalActor.Kept.Skips.{Declines}

abbrev pub no_timeout : Duration
no_timeout = record { unit = invalid; count = 0 }

-- Behavior 1 answers each message after it has sent a message and a request; behavior 0 matches none.
abbrev pub answers : ℕ → HandlerResult × List Action
answers zero = (no_match, [])
answers (suc n) =
    (returned (user 9), sends normal 8 (user 1) ∷ sync_sends high 8 (user 2) no_behavior ∷ [])

abbrev pub program : Program
program = record {
  on_message = λ code e. answers code;
  on_timeout = λ code. [];
  on_sync_failure = none;
  on_exit = [];
  make_behavior = (some (handlers 1 no_timeout), []);
  save_state = λ s. s;
  load_state = λ s buf. buf;
}

declines_answers : (n : ℕ) → (answers n).0 ≡ no_match → (answers n).1 ≡ []
declines_answers zero h = refl
declines_answers (suc n) h = absurd (ground arith)

pub program-Declines : Declines program
program-Declines code e = declines_answers code

abbrev pub request : MailboxElement
request = record { sender = some 7; mid = 5; msg = user 3 }

abbrev pub killing : MailboxElement
killing = record { sender = some 7; mid = 0; msg = exit_msg (some 7) 17 }

abbrev pub first_response : MessageId
first_response = 9223372036854775809

abbrev pub response : MailboxElement
response = record { sender = some 8; mid = first_response; msg = user 4 }

-- A request at 0, an exit message at 1 and a response everywhere else.
abbrev pub elements : ℕ → MailboxElement
elements zero = request
elements (suc zero) = killing
elements (suc (suc n)) = response

abbrev pub no_mail : SingleReaderQueue
no_mail = queue empty_dummy [] (record { first = []; second = [] })

abbrev pub fresh : LocalActor
fresh = record {
  address = 1;
  actors = λ k. record { exit_reason = 0; attachables = [] };
  memory = elements;
  next_free = 3;
  mailbox = no_mail;
  current_element = none;
  bhvr_stack = record { elements = []; erased_elements = [] };
  pending_responses = [];
  last_request_id = 0;
  planned_exit_reason = 0;
  timeout_id = 0;
  has_timeout = false;
  trap_exit = false;
  is_priority_aware = false;
  is_migrated_from = false;
  is_initialized = false;
  is_registered = true;
  state = 0;
  outbox = [];
  undefined = false;
}

pub fresh-IsNumbered : IsNumbered fresh
fresh-IsNumbered = record { fits = omega arith; numbered = no_pending }

-- The actor after its first request.
abbrev pub asking : LocalActor
asking = record fresh {
  last_request_id = 1;
  pending_responses = (9223372036854775809, no_behavior) ∷ [];
}

pub asking-IsNumbered : IsNumbered asking
asking-IsNumbered = record {
  fits = omega arith;
  numbered = younger {k = 0} (omega arith) no_pending;
}
