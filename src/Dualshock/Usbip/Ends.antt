-- ===== src/Dualshock/Usbip/Ends.antt =====
-- The loop of `serve`: it comes to an end, and answers each transfer.
use steam_controller_daemon.Dualshock.Control.{
  drop, from_be_bytes, to_be_bytes, dev_id, einval, epipe, Header, write_reply, write_error,
  Control, get_descriptor, get_report, set_report, answer, is_one_of, truncated, control,
}
use steam_controller_daemon.Dualshock.Usbip.{
  Worker, End, out_of_fuel, Turn, stops, continues, control_reply, input_report, submit, transfer,
  header_of, turn, serve,
}
use steam_controller_daemon.Prelude.Outcome.{ok, err, panics, IsSafe}
use steam_controller_daemon.Prelude.{
  on_test, on_cases, ℕ, zero, suc, ◌+◌, ◌-◌, ◌*◌, ◌/◌, ◌≤◌, ◌<◌, ◌≡◌, ◌≢◌, refl, ◌∙◌, ap, Bool, not,
  ◌&&◌, ◌||◌, List, [], ◌∷◌, ◌++◌, length, get_or, take, ltb, nat_beq, ◌⊎◌, inl, inr, arith,
}

length-drop : (n : ℕ) (xs : List ℕ) → length (drop n xs) ≡ length xs - n
length-drop zero xs = omega arith
length-drop (suc n) [] = omega arith
length-drop (suc n) (x ∷ xs) = omega (arith, length-drop n xs)

-- It is a whole header, with the sequence number of the request.
abbrev pub Reply : Header → List ℕ → Type 0
Reply h bytes = (48 ≤ length bytes) × (take 4 (drop 4 bytes) ≡ to_be_bytes h.seqnum)

write_reply-Reply :
    (command : ℕ) (h : Header) (actual : ℕ) (payload : List ℕ)
    → Reply h (write_reply command h actual payload)
unfolding write_reply
write_reply-Reply command h actual payload = (omega arith, refl)

write_error-Reply : (h : Header) (errno : ℕ) → Reply h (write_error h errno)
unfolding write_error
write_error-Reply h errno = (omega arith, refl)

-- One reply more, and nothing read.
abbrev Answers : Header → Worker → Worker → Type 0
Answers h w w' =
    (w'.input ≡ w.input)
    × ((bytes : List ℕ) × (w'.replies ≡ w.replies ++ bytes ∷ []) × Reply h bytes)

truncated-IsSafe : (n : ℕ) (r : Control) → IsSafe r → IsSafe (truncated n r)
truncated-IsSafe n (ok r) h = tt
truncated-IsSafe n (err e) h = tt
truncated-IsSafe n panics h = h

get_descriptor-IsSafe : (value : ℕ) (rumble : ℕ × ℕ) → IsSafe (get_descriptor value rumble)
unfolding get_descriptor
get_descriptor-IsSafe value rumble = ground arith

get_report-IsSafe : (value : ℕ) (rumble : ℕ × ℕ) → IsSafe (get_report value rumble)
unfolding get_report
get_report-IsSafe value rumble = ground arith

set_report-IsSafe :
    (value : ℕ) (output : List ℕ) (rumble : ℕ × ℕ) → IsSafe (set_report value output rumble)
unfolding set_report
set_report-IsSafe value output rumble = ground arith

answer-IsSafe :
    (request_type request value : ℕ) (output : List ℕ) (rumble : ℕ × ℕ)
    → IsSafe (answer request_type request value output rumble)
unfolding answer
answer-IsSafe request_type request value output rumble =
    let is : List (ℕ × ℕ) → Bool = λ pairs. is_one_of pairs request_type request in
    let safe : Control → Type 0 = λ r. IsSafe r in
    on_test safe (is ((0x80, 6) ∷ [])) _ _ (get_descriptor-IsSafe value rumble) (
      on_test safe (is ((0x81, 6) ∷ []) && nat_beq (value / 256) 0x21) _ _ (tt) (
        on_test safe (is ((0x81, 6) ∷ []) && nat_beq (value / 256) 0x22) _ _ (tt) (
          on_test safe (is ((0x80, 0) ∷ (0x81, 0) ∷ (0x82, 0) ∷ [])) _ _ (tt) (
            on_test safe (is ((0x80, 8) ∷ [])) _ _ (tt) (
              on_test safe (is ((0x81, 10) ∷ [])) _ _ (tt) (
                on_test safe (is ((0x00, 5) ∷ (0x00, 9) ∷ (0x01, 11) ∷ (0x02, 1) ∷ [])) _ _ (tt) (
                  on_test safe (is ((0xa1, 1) ∷ [])) _ _ (get_report-IsSafe value rumble) (
                    on_test safe (is ((0xa1, 2) ∷ (0xa1, 3) ∷ [])) _ _ (tt) (
                      on_test safe (is ((0x21, 9) ∷ [])) _ _ (set_report-IsSafe value output rumble)
                        (on_test safe (is ((0x21, 10) ∷ (0x21, 11) ∷ [])) _ _ (tt) (tt)))))))))))

control-IsSafe : (setup output : List ℕ) (rumble : ℕ × ℕ) → IsSafe (control setup output rumble)
unfolding control
control-IsSafe setup output rumble =
    truncated-IsSafe (get_or setup 6 0 + get_or setup 7 0 * 256) _ (
      answer-IsSafe (get_or setup 0 0) (get_or setup 1 0)
        (get_or setup 2 0 + get_or setup 3 0 * 256) output rumble)

control_reply-Answers :
    (h : Header) (length' : ℕ) (w : Worker) (r : Control)
    → IsSafe r
    → Answers h w (control_reply h length' w r)
control_reply-Answers h length' w (ok (payload, rumble)) safe =
    (refl, (_, refl, write_reply-Reply 3 h _ payload))
control_reply-Answers h length' w (err errno) safe = (refl, (_, refl, write_error-Reply h errno))
control_reply-Answers h length' w panics safe = absurd safe

submit-Answers :
    (h : Header) (packet_count length' : ℕ) (setup output report : List ℕ) (w : Worker)
    → Answers h w (submit h packet_count length' setup output report w)
unfolding submit
submit-Answers h packet_count length' setup output report w =
    on_test (Answers h w)
      (not (nat_beq h.devid dev_id)
        || not (nat_beq packet_count 0 || nat_beq packet_count 0xffffffff))
      _ _ (refl, (_, refl, write_error-Reply h einval))
      (on_test (Answers h w) (nat_beq h.endpoint 0) _ _
        (control_reply-Answers h length' w _ (control-IsSafe setup output w.rumble))
        (on_test (Answers h w) (nat_beq h.endpoint 4 && nat_beq h.direction 1) _ _
          (let bytes = take length' (input_report report w.counter) in
            (refl, (_, refl, write_reply-Reply 3 h (length bytes) bytes)))
          (on_test (Answers h w) (nat_beq h.endpoint 3 && nat_beq h.direction 0) _ _
            (refl, (_, refl, write_reply-Reply 3 h length' []))
            (refl, (_, refl, write_error-Reply h epipe)))))

-- One reply more to the request, and nothing unread.
abbrev Moved : Header → Worker → Turn → Type 0
Moved h w (stops end) = end ≢ out_of_fuel
Moved h w (continues w') =
    (length w'.input ≤ length w.input)
    × ((bytes : List ℕ) × (w'.replies ≡ w.replies ++ bytes ∷ []) × Reply h bytes)

transfer-Moved :
    (h : Header) (request report : List ℕ) (w : Worker) → Moved h w (transfer h request report w)
unfolding transfer
transfer-Moved h request report w =
    let length' = from_be_bytes request 24 in
    let packet_count = from_be_bytes request 32 in
    let setup = take 8 (drop 40 request) in
    on_test (Moved h w) (ltb 4096 length') _ _ (λ e. cc)
      (on_test (Moved h w) (nat_beq h.direction 0) _ _
        (on_cases (Moved h w) (ltb (length w.input) length') _ _ (λ short. λ e. cc)
          (λ enough.
            let rest = record w { input = drop length' w.input } in
            let (same, answered) =
              submit-Answers h packet_count length' setup (take length' w.input) report rest in
            ((let n = ap length same ∙ length-drop length' w.input in omega (arith, n)), answered)))
        (let (same, answered) = submit-Answers h packet_count length' setup [] report w in
          ((let n = ap length same in omega (arith, n)), answered)))

-- What a turn does: it stops, and not for want of fuel; or it has read a header at least, and has
-- sent one reply.
abbrev pub Turned : Worker → Turn → Type 0
Turned w (stops end) = end ≢ out_of_fuel
Turned w (continues w') =
    (48 + length w'.input ≤ length w.input)
    × ((bytes : List ℕ) × (w'.replies ≡ w.replies ++ bytes ∷ [])
        × Reply (header_of (take 48 w.input)) bytes)

Turned-of_Moved :
    (w : Worker) (t : Turn)
    → 48 ≤ length w.input
    → Moved (header_of (take 48 w.input)) (record w { input = drop 48 w.input }) t
    → Turned w t
Turned-of_Moved w (stops end) enough moved = moved
Turned-of_Moved w (continues w') enough (shorter, answered) =
    ((let n = length-drop 48 w.input in omega (arith, n, shorter)), answered)

-- Every turn of the loop, whatever was read, either stops, and not for want of fuel; or has read at
-- least the 48 bytes of a request and has sent one reply more, of at least 48 bytes, that carries the
-- sequence number of the request.
pub turn-Turned : (report : List ℕ) (w : Worker) → Turned w (turn report w)
unfolding turn
turn-Turned report w =
    let request = take 48 w.input in
    let h = header_of request in
    let rest = record w { input = drop 48 w.input } in
    on_cases (Turned w) (ltb (length w.input) 48) _ _ (λ short. λ e. cc)
      (λ enough. Turned-of_Moved w _ (ground arith) (
        on_test (Moved h rest) (nat_beq (from_be_bytes request 0) 2) _ _
          (omega arith, (write_reply 4 h 0 [], refl, write_reply-Reply 4 h 0 []))
          (on_test (Moved h rest) (not (nat_beq (from_be_bytes request 0) 1)) _ _ (λ e. cc)
            (transfer-Moved h request report rest))))

Turned-cases :
    (w : Worker) (t : Turn)
    → Turned w t
    → ((end : End) × (t ≡ stops end) × (end ≢ out_of_fuel))
      ⊎ ((next : Worker) × (t ≡ continues next) × (48 + length next.input ≤ length w.input))
Turned-cases w (stops end) h = inl (end, refl, h)
Turned-cases w (continues next) (shorter, answered) = inr (next, refl, shorter)

-- On fuel above the number of bytes to read, whatever they are and whatever the reports, `serve` ends
-- before its fuel runs out.
pub serve-Ends :
    (fuel : ℕ) (reports : ℕ → List ℕ) (w : Worker)
    → length w.input < fuel
    → (serve fuel reports w).0 ≢ out_of_fuel
unfolding serve
serve-Ends zero reports w h = absurd (omega arith)
serve-Ends (suc n) reports w h =
    elim (Turned-cases w (turn (reports n) w) (turn-Turned (reports n) w)) [
      | inl (end, e, fine) ↦ rw (e, serve) fine
      | inr (next, e, shorter) ↦
          rw (e, serve) (serve-Ends n reports next (omega (arith, shorter, h)))
    ]
