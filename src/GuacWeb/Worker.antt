-- ===== src/GuacWeb/Worker.antt =====
-- The requests of the worker thread in src/guac_web.cpp: `drain_input_queue` and one capture of
-- `run_event_loop`. The flag `stop` is not looked at: `disconnect` shuts the socket down as well, which
-- is the end of the stream here.
use tunnel_proxy.Base.{
  ℕ, zero, suc, ◌+◌, Bool, true, false, List, [], ◌∷◌, ◌++◌, Option, none, some, Bytes, codes,
}
use tunnel_proxy.Json.{Json}
use tunnel_proxy.Socket.{Incoming}
use tunnel_proxy.GuacWeb.{InputEvent, GuacWebClient}
use tunnel_proxy.GuacWeb.Cdp.{cdp_send, message, broken, terminated, still_reading, cdp_recv}
use tunnel_proxy.GuacWeb.Delta.{Images, flush_delta}

-- What a wait for an answer ends with: the answer; "" from `cdp_recv`; or an exception.
pub data Awaited : Type 0 where
  answered : Bytes → Incoming → Awaited
  disconnected thrown still_waiting : Awaited

-- What is left of the work when the waiting events are sent: the next id, and the stream.
pub data Drained : Type 0 where
  drained : ℕ → Incoming → Drained
  cut_off exception endless : Drained

abbrev pub sending : Bytes → List Bytes × Drained → List Bytes × Drained
sending taken (frames, d) = (taken ∷ frames, d)

abbrev pub after_answer : Awaited → (Incoming → List Bytes × Drained) → List Bytes × Drained
after_answer (answered msg i) more = more i
after_answer disconnected more = ([], cut_off)
after_answer thrown more = ([], exception)
after_answer still_waiting more = ([], endless)

abbrev next_stream : GuacWebClient → GuacWebClient
next_stream c = record c { next_stream_id = c.next_stream_id + 1 }

abbrev pub capture_request : InputEvent
capture_request = record {
  method = codes "Page.captureScreenshot";
  params = codes "{\"format\":\"jpeg\",\"quality\":80}";
}

-- The "data" of a "result", which `get<std::string>()` throws on if it is no string.
pub data Shot : Type 0 where
  missing not_a_string : Shot
  picture : Bytes → Shot

abbrev pub unless_thrown : Shot → Drained → Drained
unless_thrown not_a_string d = exception
unless_thrown _ d = d

-- `same_id v id` is `v.get<int>() == id`, and `none` is the type_error on a value that is no number.
-- The fuel counts the messages, and the frames of each.
module _ (json : Json) (same_id : json.Value → ℕ → Option Bool) where
  -- Whether the message has the id; `none` is the exception.
  unfoldable pub is_answer : ℕ → Bytes → Option Bool
  is_answer id msg = elim (json.parse msg) [
    | none ↦ some false
    | some v ↦ elim (json.member v (codes "id")) [ none ↦ some false | some n ↦ same_id n id ]
  ]

  unfoldable pub screenshot : Bytes → Shot
  screenshot msg = elim (json.parse msg) [
    | none ↦ missing
    | some v ↦ elim (json.member v (codes "result")) [
      | none ↦ missing
      | some r ↦ elim (json.member r (codes "data")) [
        | none ↦ missing
        | some d ↦ elim (json.string d) [ none ↦ not_a_string | some b64 ↦ picture b64 ]
      ]
    ]
  ]

  -- The client after the answer with the screenshot; an exception leaves it as it is.
  unfoldable pub show : Images → Bytes → GuacWebClient → GuacWebClient
  unfolding screenshot
  show im msg c = elim (screenshot msg) [
    | missing ↦ c
    | not_a_string ↦ c
    | picture b64 ↦ flush_delta im b64 c.next_stream_id (next_stream c)
  ]

  module _ (max_size : ℕ) where
    unfoldable pub await : (fuel id : ℕ) → Incoming → Awaited
    unfolding is_answer
    await zero id i = still_waiting
    await (suc fuel) id i = elim (cdp_recv max_size (suc fuel) i) [
      | broken ↦ disconnected
      | terminated ↦ thrown
      | still_reading ↦ still_waiting
      | message pongs [] i' ↦ disconnected
      | message pongs (c ∷ cs) i' ↦
          let later = await fuel id i' in
          elim (is_answer id (c ∷ cs)) [
            | none ↦ thrown
            | some answers ↦ elim answers [ true ↦ answered (c ∷ cs) i' | false ↦ later ]
          ]
    ]

    -- What /dev/urandom gives for each request, and how many bytes `send` takes of it.
    module _ (masks : ℕ → Option Bytes) (replies : ℕ → ℕ) where
      -- What goes out of a request; the result of `cdp_send` goes nowhere.
      abbrev request : ℕ → InputEvent → Bytes
      request id e = (cdp_send (masks id) (replies id) id e.method e.params).0

      -- What goes out of each request, without the Pongs, and how it ends.
      unfoldable pub drain_input_queue : ℕ → List InputEvent → ℕ → Incoming → List Bytes × Drained
      unfolding await
      drain_input_queue fuel [] next_id i = ([], drained next_id i)
      drain_input_queue fuel (e ∷ es) next_id i =
          sending (request next_id e)
            (after_answer (await fuel next_id i) (drain_input_queue fuel es (next_id + 1)))

      abbrev captured : Images → ℕ → Awaited → GuacWebClient → Drained × GuacWebClient
      captured im id (answered msg i) c =
          (unless_thrown (screenshot msg) (drained (id + 1) i), show im msg c)
      captured im id disconnected c = (cut_off, c)
      captured im id thrown c = (exception, c)
      captured im id still_waiting c = (endless, c)

      abbrev after_drain :
          Images → ℕ → List Bytes × Drained → GuacWebClient → List Bytes × Drained × GuacWebClient
      after_drain im fuel (frames, drained id i) c =
          let r = captured im id (await fuel id i) c in
          (frames ++ (request id capture_request ∷ []), r.0, r.1)
      after_drain im fuel (frames, d) c = (frames, d, c)

      -- One turn of the loop in `run_event_loop`, in which nothing is put into the queue.
      unfoldable pub turn :
          Images → ℕ → ℕ → Incoming → GuacWebClient → List Bytes × Drained × GuacWebClient
      unfolding drain_input_queue
      turn im fuel next_id i c =
          after_drain im fuel (drain_input_queue fuel c.input_queue next_id i)
            (record c { input_queue = [] })
