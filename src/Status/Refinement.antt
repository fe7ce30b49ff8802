-- ===== src/Status/Refinement.antt =====
-- src/Status.h: the class over 16-bit words against the flags of `Status`. A mask has the upper
-- twelve bits all clear, as `signaled`, or all set, as `anything`.
use zthread.Base.{ℕ, ◌+◌, ◌≡◌, refl, Bool, true, arith, if◌then◌else◌}
use zthread.Status.{
  Flags, State, Status, init, anything, only_interrupted, masked, pending, examine, push, clear,
  next,
}
use zthread.Status.Word

abbrev pub bit : Bool → ℕ → ℕ
bit b n = if b then n else 0

abbrev pub encode : Flags → ℕ
encode f = bit f.signaled 1 + bit f.interrupted 2 + bit f.timedout 4 + bit f.canceled 8

abbrev pub encode_mask : Bool → Flags → ℕ
encode_mask high f = encode f + bit high 0xfff0

abbrev pub encode_state : State → ℕ
encode_state State.invalid = Word.invalid
encode_state State.signaled = Word.signaled
encode_state State.interrupted = Word.interrupted
encode_state State.timedout = Word.timedout

abbrev pub encode_status : Bool → Status → Word.Status
encode_status high s = record { pending = encode s.pending; mask = encode_mask high s.mask }

init-encode : Word.init ≡ encode_status true init
init-encode = refl

next-encode :
    (high : Bool) (s : Status)
    → Word.next (encode_status high s) ≡ (encode_state (next s).0, encode_status high (next s).1)
unfolding next Word.next
next-encode high s = ground arith

push-encode :
    (high : Bool) (f : Flags) (s : Status)
    → Word.push (encode f) (encode_status high s) ≡ encode_status high (push f s)
unfolding push Word.push
push-encode high f s = ground arith

clear-encode :
    (high : Bool) (f : Flags) (s : Status)
    → Word.clear (encode f) (encode_status high s) ≡ encode_status high (clear f s)
unfolding clear Word.clear
clear-encode high f s = ground arith

examine-encode :
    (high : Bool) (f : Flags) (s : Status)
    → Word.examine (encode f) (encode_status high s) ≡ examine f s
unfolding examine Word.examine
examine-encode high f s = ground arith

pending-encode :
    (high : Bool) (s : Status)
    → (Word.pending Word.anything (encode_status high s) ≡ pending anything s)
      × (Word.pending Word.interrupted (encode_status high s) ≡ pending only_interrupted s)
      × (Word.masked Word.interrupted (encode_status high s) ≡ masked only_interrupted s)
unfolding pending masked Word.pending Word.masked
pending-encode high s = (ground arith, ground arith, ground arith)

-- On words that carry the pending flags and the mask of a status the code computes what the flags
-- compute: `next` the same state and the words of the new flags, `push` and `clear` of any flags the
-- words with exactly those flags added or taken away, `examine` of any flags, and the tests that the
-- monitor makes with `pending` and `masked`, the same answer.
pub words_refine :
    (high : Bool) (f : Flags) (s : Status)
    → (Word.next (encode_status high s) ≡ (encode_state (next s).0, encode_status high (next s).1))
      × (Word.push (encode f) (encode_status high s) ≡ encode_status high (push f s))
      × (Word.clear (encode f) (encode_status high s) ≡ encode_status high (clear f s))
      × (Word.examine (encode f) (encode_status high s) ≡ examine f s)
      × (Word.pending Word.anything (encode_status high s) ≡ pending anything s)
      × (Word.pending Word.interrupted (encode_status high s) ≡ pending only_interrupted s)
      × (Word.masked Word.interrupted (encode_status high s) ≡ masked only_interrupted s)
words_refine high f s =
    let (a, b, c) = pending-encode high s in
    (
      next-encode high s,
      push-encode high f s,
      clear-encode high f s,
      examine-encode high f s,
      a,
      b,
      c,
    )
