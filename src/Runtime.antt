-- ===== src/Runtime.antt =====
-- What the program uses of Go's runtime: channels of errors, contexts that can be cancelled, and the
-- goroutines that handlers start and leave running. Channels and contexts are known by their
-- numbers, in the order in which they are made.
use data_loom.Common.{
  ℕ, String, Bool, true, false, Option, none, some, List, [], ◌∷◌, ◌++◌, Go, Outcome, done, parked,
  panic, length, get_elem?, set, ltb, if◌then◌else◌,
}
use data_loom.Network.{Client, WebSocketMessage}

-- `chan error`; `none` is the nil error.
pub record Channel : Type 0 where
  pub capacity : ℕ
  pub buffer : List (Option String)
  pub closed : Bool

pub data Goroutine : Type 0 where
  -- sendTopic: from the database's channel to the handler's
  forward : ℕ → ℕ → Goroutine
  -- publishHandler: wait for the channel or for the end of the context
  await : Client → WebSocketMessage → ℕ → ℕ → Goroutine

pub record Runtime : Type 0 where
  pub channels : List Channel
  -- whether each context is done
  pub contexts : List Bool
  pub goroutines : List Goroutine
  -- which of two ready cases each coming `select` takes: the first one, or the second
  pub picks : List Bool
  -- whether a context that is done has ended by its deadline, and not by cancel()
  pub expired : ℕ → Bool
  -- what time.Now() returns
  pub clock : ℕ

abbrev pub started : ℕ → Runtime
started now = record {
  channels = [];
  contexts = [];
  goroutines = [];
  picks = [];
  expired = λ c. false;
  clock = now;
}

-- make(chan error, capacity)
unfoldable pub make_channel : ℕ → Go Runtime ℕ
make_channel n r = done (length r.channels) (record r {
  channels = r.channels ++ record { capacity = n; buffer = []; closed = false } ∷ [];
})

abbrev send_on : ℕ → Option String → Runtime → Option Channel → Outcome Runtime (Unit {0})
send_on c e r none = parked r
send_on c e r (some ch) =
    if ch.closed
    then panic "send on closed channel" r
    else if ltb (length ch.buffer) ch.capacity
    then done tt
        (record r { channels = set r.channels c (record ch { buffer = ch.buffer ++ e ∷ [] }) })
    else parked r

-- ch <- e
unfoldable pub send : ℕ → Option String → Go Runtime (Unit {0})
send c e r = send_on c e r (get_elem? r.channels c)

abbrev close_on : ℕ → Runtime → Option Channel → Outcome Runtime (Unit {0})
close_on c r none = panic "close of nil channel" r
close_on c r (some ch) =
    if ch.closed
    then panic "close of closed channel" r
    else done tt (record r { channels = set r.channels c (record ch { closed = true }) })

-- close(ch)
unfoldable pub close : ℕ → Go Runtime (Unit {0})
close c r = close_on c r (get_elem? r.channels c)

-- context.WithTimeout(context.Background(), …)
unfoldable pub make_context : Go Runtime ℕ
make_context r = done (length r.contexts) (record r { contexts = r.contexts ++ false ∷ [] })

-- cancel()
unfoldable pub cancel : ℕ → Go Runtime (Unit {0})
cancel c r = done tt (record r { contexts = set r.contexts c true })

abbrev is_true : Option Bool → Bool
is_true (some b) = b
is_true none = false

-- whether `<-ctx.Done()` is ready
unfoldable pub context_done : ℕ → Runtime → Bool
context_done c r = is_true (get_elem? r.contexts c)

-- ctx.Err() of a context that is done.
abbrev pub context_error : ℕ → Runtime → String
context_error c r = if r.expired c then "context deadline exceeded" else "context canceled"

abbrev pub pick_of : List Bool → Go Runtime Bool
pick_of [] r = done true r
pick_of (b ∷ rest) r = done b (record r { picks = rest })

-- Both cases of a `select` are ready.
unfoldable pub pick : Go Runtime Bool
pick r = pick_of r.picks r

-- go func() { … }()
unfoldable pub spawn : Goroutine → Go Runtime (Unit {0})
spawn g r = done tt (record r { goroutines = r.goroutines ++ g ∷ [] })
