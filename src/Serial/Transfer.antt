-- ===== src/Serial/Transfer.antt =====
-- kernel/serial.c: what goes through the line.
use advanced_operating_syste.Base.{
  ℕ, ◌%◌, ◌^◌, ◌≡◌, refl, ◌∙◌, sym, ap, Bool, true, false, Option, none, some, List, [], ◌∷◌, ◌++◌,
  Ends, All,
}
use advanced_operating_syste.Serial.{
  com1, Line, setup, init_serial, can_send, can_receive, await, write_com1, read_com1, calls,
}

-- A loop passes the statuses that do not fit, and takes the first that does.
pub await-skips :
    (test : ℕ → Bool) (busy later : List ℕ) (status : ℕ)
    → All (λ x. test x ≡ false) busy
    → test status ≡ true
    → await test (busy ++ status ∷ later) ≡ some later
unfolding await
await-skips test [] later status all fits = rw fits refl
await-skips test (x ∷ busy) later status (wrong, all) fits =
    rw wrong (await-skips test busy later status all fits)

-- The bytes that some calls write, and how many they read.
unfoldable pub written : List (Option ℕ) → List (ℕ × ℕ)
written [] = []
written (some c ∷ rest) = (c % 2 ^ 8, com1) ∷ written rest
written (none ∷ rest) = written rest

unfoldable pub reads : List (Option ℕ) → List ℕ → List ℕ
reads [] received = []
reads (some c ∷ rest) received = reads rest received
reads (none ∷ rest) [] = []
reads (none ∷ rest) (c ∷ received) = c ∷ reads rest received

-- The device serves the calls: after some statuses that make it wait, each one gets one that lets
-- it go on, and there is a byte for every read.
pub data Serves : List (Option ℕ) → List ℕ → List ℕ → Type 0 where
  idle : {statuses received : List ℕ} → Serves [] statuses received
  sends :
      {rest : List (Option ℕ)} {later received : List ℕ} (c : ℕ) (busy : List ℕ) (status : ℕ)
      → All (λ x. can_send x ≡ false) busy
      → can_send status ≡ true
      → Serves rest later received
      → Serves (some c ∷ rest) (busy ++ status ∷ later) received
  receives :
      {rest : List (Option ℕ)} {later received : List ℕ} (c : ℕ) (busy : List ℕ) (status : ℕ)
      → All (λ x. can_receive x ≡ false) busy
      → can_receive status ≡ true
      → Serves rest later received
      → Serves (none ∷ rest) (busy ++ status ∷ later) (c ∷ received)

abbrev line : Bool → List ℕ → List ℕ → List (ℕ × ℕ) → Line
line done statuses received sent = record {
  done = done;
  statuses = statuses;
  received = received;
  sent = sent;
}

append_assoc : (xs ys zs : List (ℕ × ℕ)) → (xs ++ ys) ++ zs ≡ xs ++ (ys ++ zs)
append_assoc [] ys zs = refl
append_assoc (x ∷ xs) ys zs = ap (λ l. x ∷ l) (append_assoc xs ys zs)

append_nil : (xs : List (ℕ × ℕ)) → xs ++ [] ≡ xs
append_nil [] = refl
append_nil (x ∷ xs) = ap (λ l. x ∷ l) (append_nil xs)

-- A line that has been set up.
calls-open :
    (cs : List (Option ℕ)) (statuses received : List ℕ) (sent : List (ℕ × ℕ))
    → Serves cs statuses received
    → Ends
        (λ r. (r.1 ≡ reads cs received) × (r.0.sent ≡ sent ++ written cs))
        (calls cs (line true statuses received sent))
unfolding calls reads written write_com1 read_com1 init_serial
calls-open _ _ _ sent idle = (_, refl, (refl, sym (append_nil sent)))
calls-open _ _ received sent (sends {rest} {later} c busy status wait go s) =
    let taken = await-skips can_send busy later status wait go in
    let (r, run, (got, out)) = calls-open rest later received (sent ++ (c % 2 ^ 8, com1) ∷ []) s in
    (r, rw taken run, (got, out ∙ append_assoc sent ((c % 2 ^ 8, com1) ∷ []) (written rest)))
calls-open _ _ _ sent (receives {rest} {later} {received} c busy status wait go s) =
    let taken = await-skips can_receive busy later status wait go in
    let (r, run, (got, out)) = calls-open rest later received sent s in
    ((r.0, c ∷ r.1), rw (taken, run) refl, (ap (λ l. c ∷ l) got, out))

-- The first call sets the line up.
opened :
    (c : Option ℕ) (cs : List (Option ℕ)) (statuses received : List ℕ) (sent : List (ℕ × ℕ))
    → calls (c ∷ cs) (line false statuses received sent)
      ≡ calls (c ∷ cs) (line true statuses received (sent ++ setup))
unfolding calls write_com1 read_com1 init_serial
opened none cs statuses received sent = refl
opened (some c) cs statuses received sent = refl

-- On a device that serves them, reads and writes of a line that was not set up all end: the line is
-- set up once, before the first of them; the bytes written go out in their order, and the bytes
-- received come in theirs.
pub calls-Serves :
    (c : Option ℕ) (cs : List (Option ℕ)) (s : Line)
    → s.done ≡ false
    → Serves (c ∷ cs) s.statuses s.received
    → Ends
        (λ r.
          (r.1 ≡ reads (c ∷ cs) s.received) × (r.0.sent ≡ s.sent ++ (setup ++ written (c ∷ cs))))
        (calls (c ∷ cs) s)
calls-Serves c cs s fresh served =
    let (r, run, (got, out)) = calls-open (c ∷ cs) s.statuses s.received (s.sent ++ setup) served in
    let same : s ≡ line false s.statuses s.received s.sent =
      ap (λ done. line done s.statuses s.received s.sent) fresh in
    (
      r,
      ap (calls (c ∷ cs)) same ∙ opened c cs s.statuses s.received s.sent ∙ run,
      (got, out ∙ append_assoc s.sent setup (written (c ∷ cs))),
    )
