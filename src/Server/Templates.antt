-- ===== src/Server/Templates.antt =====
-- cmd/ngstratum/stratum.go, RunTemplateBroadcaster: the templates of a coin server's event stream.
-- What its selects wait for, and the results of SubscribeChan, come in as inputs.
use ngpool.Prelude.{◌≡◌, refl, sym, ap, ◌∙◌, Option, none, some, List, [], ◌∷◌, ◌++◌, All}
use mathlib.Core.List.{append-nil, append_assoc}
use ngpool.Bytes.{Bytes}

pub data Status : Type 0 where
  starting down up live : Status

-- Where the goroutine is: about to subscribe, waiting two seconds, in the inner loop, or returned.
pub data Phase : Type 0 where
  subscribing waiting listening returned : Phase

-- sse.Event, its Data as `payload`, with nil for what the line did not have.
pub record Event : Type 0 where
  pub event : Option Bytes
  pub payload : Option Bytes

pub data Input : Type 0 where
  subscribe_failed subscribed timeout shutdown : Input
  message : Option Event → Input

pub record Stream : Type 0 where
  pub phase : Phase
  pub status : Status
  pub last_event : Event
  pub new_templates : List Bytes

abbrev pub no_event : Event
no_event = record { event = none; payload = none }

module _ (decode_string : Bytes → Bytes) where
  abbrev take_event : Option Bytes → Stream → Stream
  take_event none s = s
  take_event (some name) s = record s { last_event = record s.last_event { event = some name } }

  -- A payload that does not decode is logged, and what was decoded of it goes on.
  abbrev take_data : Option Bytes → Stream → Stream
  take_data none s = s
  take_data (some text) s =
      let decoded = decode_string text in
      record s {
        last_event = record s.last_event { payload = some decoded };
        new_templates = s.new_templates ++ decoded ∷ [];
        status = live;
      }

  -- A nil message: the `break` leaves the select, not the loop.
  abbrev take_message : Option Event → Stream → Stream
  take_message none s = s
  take_message (some msg) s = take_data msg.payload (take_event msg.event s)

  -- In a phase that does not wait for it an input does not come.
  abbrev step : Phase → Input → Stream → Stream
  step subscribing subscribe_failed s = record s { status = down; phase = waiting }
  step subscribing subscribed s = record s { status = up; phase = listening; last_event = no_event }
  step waiting timeout s = record s { phase = subscribing }
  step waiting shutdown s = record s { phase = returned }
  step listening (message msg) s = take_message msg s
  step listening shutdown s = record s { phase = returned }
  step _ _ s = s

  unfoldable pub run_template_broadcaster : List Input → Stream → Stream
  run_template_broadcaster [] s = s
  run_template_broadcaster (i ∷ inputs) s = run_template_broadcaster inputs (step s.phase i s)

  -- The payloads of the messages.
  abbrev pub payloads : List Input → List Bytes
  payloads [] = []
  payloads (message (some msg) ∷ inputs) = elim msg.payload [
    | none ↦ payloads inputs
    | some text ↦ decode_string text ∷ payloads inputs
  ]
  payloads (_ ∷ inputs) = payloads inputs

  abbrev IsRunning : Input → Type 0
  IsRunning shutdown = ⊥
  IsRunning _ = Unit

  take_data-payloads :
      (e : Event) (s : Stream)
      → s.phase ≡ listening
      → ((take_data e.payload s).phase ≡ listening)
        × ((take_data e.payload s).new_templates
            ≡ s.new_templates ++ payloads (message (some e) ∷ []))
  take_data-payloads e s listens = by_payload e.payload refl
    where
      by_payload :
          (payload : Option Bytes)
          → e.payload ≡ payload
          → ((take_data payload s).phase ≡ listening)
            × ((take_data payload s).new_templates
                ≡ s.new_templates
                  ++ payloads (message (some (record e { payload = payload })) ∷ []))
      by_payload none same = (listens, sym (append-nil s.new_templates))
      by_payload (some text) same = (listens, refl)

  take_event-kept :
      (name : Option Bytes) (s : Stream)
      → ((take_event name s).phase ≡ s.phase)
        × ((take_event name s).new_templates ≡ s.new_templates)
  take_event-kept none s = (refl, refl)
  take_event-kept (some name) s = (refl, refl)

  step-listening :
      (i : Input) (s : Stream)
      → s.phase ≡ listening
      → IsRunning i
      → ((step listening i s).phase ≡ listening)
        × ((step listening i s).new_templates ≡ s.new_templates ++ payloads (i ∷ []))
  step-listening subscribe_failed s listens h = (listens, sym (append-nil s.new_templates))
  step-listening subscribed s listens h = (listens, sym (append-nil s.new_templates))
  step-listening timeout s listens h = (listens, sym (append-nil s.new_templates))
  step-listening shutdown s listens h = absurd h
  step-listening (message none) s listens h = (listens, sym (append-nil s.new_templates))
  step-listening (message (some e)) s listens h =
      let (phase, kept) = take_event-kept e.event s in
      let (listens', sent) = take_data-payloads e (take_event e.event s) (phase ∙ listens) in
      (listens', sent ∙ ap (λ ts. ts ++ payloads (message (some e) ∷ [])) kept)

  payloads-cons :
      (i : Input) (inputs : List Input)
      → payloads (i ∷ inputs) ≡ payloads (i ∷ []) ++ payloads inputs
  payloads-cons subscribe_failed inputs = refl
  payloads-cons subscribed inputs = refl
  payloads-cons timeout inputs = refl
  payloads-cons shutdown inputs = refl
  payloads-cons (message none) inputs = refl
  payloads-cons (message (some e)) inputs = by_payload e.payload
    where
      by_payload :
          (payload : Option Bytes)
          → payloads (message (some (record e { payload = payload })) ∷ inputs)
            ≡ payloads (message (some (record e { payload = payload })) ∷ []) ++ payloads inputs
      by_payload none = refl
      by_payload (some text) = refl

  -- Once RunTemplateBroadcaster has subscribed, it stays in the inner loop until it is shut down,
  -- whether or not the connection breaks in between, and what it gives on is just the payloads of
  -- the messages, decoded, in their order.
  pub run_template_broadcaster-listening :
      (inputs : List Input) (s : Stream)
      → s.phase ≡ listening
      → All IsRunning inputs
      → ((run_template_broadcaster inputs s).phase ≡ listening)
        × ((run_template_broadcaster inputs s).new_templates ≡ s.new_templates ++ payloads inputs)
  unfolding run_template_broadcaster
  run_template_broadcaster-listening [] s listens h = (listens, sym (append-nil s.new_templates))
  run_template_broadcaster-listening (i ∷ inputs) s listens h =
      let (phase, sent) = step-listening i s listens h.0 in
      let (phase', sent') =
        run_template_broadcaster-listening inputs (step listening i s) phase h.1 in
      let same : run_template_broadcaster (i ∷ inputs) s
          ≡ run_template_broadcaster inputs (step listening i s) =
        ap (λ p. run_template_broadcaster inputs (step p i s)) listens in
      (
        ap (λ (r : Stream). r.phase) same ∙ phase',
        ap (λ (r : Stream). r.new_templates) same
            ∙ sent'
            ∙ ap (λ ts. ts ++ payloads inputs) sent
            ∙ append_assoc s.new_templates (payloads (i ∷ [])) (payloads inputs)
            ∙ ap (λ ts. s.new_templates ++ ts) (sym (payloads-cons i inputs)),
      )
