-- ===== src/Api/Middleware.antt =====
-- internal/api/middleware.go: request IDs, the access log and the recovery of panics. uuid.NewString is a
-- parameter.
use near_real_time_hybrid_se.Common.{
  ℕ, ◌+◌, Bool, true, false, ◌&&◌, ◌||◌, ◌==◌, List, [], ◌∷◌, ◌++◌, Option, none, some, leb, ltb,
  length, if◌then◌else◌,
}
use near_real_time_hybrid_se.Common.Bytes.{Bytes, codes}
use near_real_time_hybrid_se.Common.Trim.{is_empty}
use near_real_time_hybrid_se.Rrf.{Scores}
use near_real_time_hybrid_se.Api.{
  Call, set_header, write_header, write, returned, aborted, panicked, Handled, Request,
}
use near_real_time_hybrid_se.Api.Response.{text, internal, Marshal, write_error}

abbrev pub max_request_id_length : ℕ
max_request_id_length = 128

-- A letter, a digit, or one of - _ . :
unfoldable pub is_id_byte : ℕ → Bool
is_id_byte c =
    (leb 97 c && leb c 122)
    || (leb 65 c && leb c 90)
    || (leb 48 c && leb c 57)
    || (c == 45)
    || (c == 95)
    || (c == 46)
    || (c == 58)

unfoldable pub all_id_bytes : Bytes → Bool
unfolding is_id_byte
all_id_bytes [] = true
all_id_bytes (c ∷ cs) = is_id_byte c && all_id_bytes cs

unfoldable pub valid_request_id : Bytes → Bool
unfolding all_id_bytes is_empty
valid_request_id id =
    if is_empty id || ltb max_request_id_length (length id) then false else all_id_bytes id

unfoldable pub pick_request_id : Bytes → Bytes → Bytes
unfolding valid_request_id
pick_request_id uuid given = if valid_request_id given then given else uuid

-- withRequestID: the header is set before the next handler runs.
unfoldable pub with_request_id : Bytes → (Request → Handled) → Request → Handled
unfolding pick_request_id
with_request_id uuid next r =
    let id = pick_request_id uuid r.request_id in
    let out = next r in
    record { calls = set_header (codes "X-Request-ID") id ∷ out.calls; end = out.end }

-- statusRecorder.
pub record Recorder : Type 0 where
  pub status : ℕ
  pub bytes : ℕ
  pub wrote_header : Bool

abbrev pub new_recorder : Recorder
new_recorder = record { status = 0; bytes = 0; wrote_header = false }

-- The recorder after a call, and the calls that it makes of the writer below it.
unfoldable pub record_call : Recorder → Call → Recorder × List Call
record_call r (set_header k v) = (r, set_header k v ∷ [])
record_call r (write_header n) = (
  (if r.wrote_header then r else record r { status = n; wrote_header = true }),
  write_header n ∷ [],
)
record_call r (write b) =
    if r.wrote_header then (record r { bytes = r.bytes + length b }, write b ∷ []) else (
      record { status = 200; bytes = r.bytes + length b; wrote_header = true },
      write_header 200 ∷ write b ∷ [],
    )

unfoldable pub record_calls : Recorder → List Call → Recorder × List Call
unfolding record_call
record_calls r [] = (r, [])
record_calls r (c ∷ cs) =
    let (r1, out) = record_call r c in let (r2, outs) = record_calls r1 cs in (r2, out ++ outs)

abbrev pub status_or_ok : Recorder → ℕ
status_or_ok r = if r.wrote_header then r.status else 200

-- The access log entry: whether its level is an error, the status and the size.
pub record Entry : Type 0 where
  pub failed : Bool
  pub status : ℕ
  pub bytes : ℕ

-- withLogging: a panic that passes leaves no entry.
unfoldable pub with_logging : Handled → Handled × Option Entry
unfolding record_calls
with_logging out =
    let (r, calls) = record_calls new_recorder out.calls in
    (
      record { calls = calls; end = out.end },
      elim out.end [
        | returned ↦
            some (record { failed = leb 500 r.status; status = status_or_ok r; bytes = r.bytes })
        | aborted ↦ none
        | panicked ↦ none
      ],
    )

module _ (f : Scores) (m : Marshal f) where
  -- withRecovery.
  unfoldable pub with_recovery : Handled → Handled
  unfolding record_calls write_error
  with_recovery out =
      let (r, calls) = record_calls new_recorder out.calls in
      elim out.end [
        | returned ↦ record { calls = calls; end = returned }
        | aborted ↦ record { calls = calls; end = aborted }
        | panicked ↦ record {
          calls =
              if r.wrote_header
              then calls
              else calls
                ++ (record_calls r
                    (write_error f m 500 internal (text (codes "internal error")))).1;
          end = returned;
        }
      ]
