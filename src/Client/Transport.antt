-- ===== src/Client/Transport.antt =====
-- `SendRaw` and `ReceiveRaw` over a connection that keeps bytes in order.
use mh2c_go.Base.{
  ℕ, zero, suc, ◌+◌, ◌-◌, ◌≤◌, ◌<◌, ◌≡◌, ◌≢◌, refl, sym, ap, ◌∙◌, arith, false, [], ◌∷◌, ◌++◌,
  append-nil, append_assoc, length, length-append, take, drop, length-drop, take-append-drop, leb,
  Option, none, Bytes, Error, ok, slice, slice_in_range,
}
use mh2c_go.Client.Conn.{Conn, write_all, write_step, resume, read_full, read_step}

-- One call of `Write` on some bytes: no error, a positive count of them is sent, in order.
pub record Wrote (C : Conn) (unread sent : C.State → Bytes) (bs : Bytes) (s : C.State)
    : Type 0 where
  pub no_error : (C.write bs s).2 ≡ none
  pub progress : 0 < (C.write bs s).1
  pub within : (C.write bs s).1 ≤ length bs
  pub sends : sent (C.write bs s).0 ≡ sent s ++ take (C.write bs s).1 bs
  pub keeps : unread (C.write bs s).0 ≡ unread s

-- One call of `Read` with room for `n` bytes: no error, and between 1 and `n` of the bytes that wait.
pub record Took (C : Conn) (unread sent : C.State → Bytes) (n : ℕ) (s : C.State) : Type 0 where
  pub no_error : (C.read n s).2 ≡ none
  pub progress : 0 < length (C.read n s).1
  pub within : length (C.read n s).1 ≤ n
  pub takes : unread s ≡ (C.read n s).1 ++ unread (C.read n s).0
  pub keeps : sent (C.read n s).0 ≡ sent s

-- A healthy connection: `unread` is what the peer has sent and nobody has read yet, and `sent` is
-- what has been written. Short writes and short reads are allowed.
pub record InOrder (C : Conn) : Type 0 where
  pub unread : C.State → Bytes
  pub sent : C.State → Bytes
  pub writes : (bs : Bytes) (s : C.State) → bs ≢ [] → Wrote C unread sent bs s
  pub reads : (n : ℕ) (s : C.State) → 0 < n → unread s ≢ [] → Took C unread sent n s

-- Two splits of one sequence: the longer front continues the shorter one.
record Continues (xs ys zs ws : Bytes) : Type 0 where
  between : Bytes
  longer : zs ≡ xs ++ between
  shorter : ys ≡ between ++ ws

append_cut :
    (xs ys zs ws : Bytes) → xs ++ ys ≡ zs ++ ws → length xs ≤ length zs → Continues xs ys zs ws
append_cut [] ys zs ws e h = record { between = zs; longer = refl; shorter = e }
append_cut (x ∷ xs) ys [] ws e h = absurd (omega arith)
append_cut (x ∷ xs) ys (z ∷ zs) ws e h =
    let tails : xs ++ ys ≡ zs ++ ws = cc in
    let heads : x ≡ z = cc in
    let c = append_cut xs ys zs ws tails (omega arith) in
    record { between = c.between; longer = λ i. sym heads i ∷ c.longer i; shorter = c.shorter }

take-length : (xs : Bytes) → take (length xs) xs ≡ xs
take-length [] = refl
take-length (x ∷ xs) = ap (◌∷◌ x) (take-length xs)

slice_from : (n : ℕ) (xs : Bytes) → n ≤ length xs → slice n (length xs) xs ≡ ok (drop n xs)
slice_from n xs h =
    slice_in_range n (length xs) xs h (omega arith)
    ∙ ap ok (ap (λ k. take k (drop n xs)) (sym (length-drop n xs)) ∙ take-length (drop n xs))

module _ (C : Conn) (healthy : InOrder C) where
  open healthy use {unread, sent, writes, reads}

  -- The whole of `bs` is sent, and nothing is read.
  pub record Sent (fuel : ℕ) (bs : Bytes) (s : C.State) : Type 0 where
    pub after : C.State
    pub returns : write_all C fuel bs s ≡ (after, ok tt)
    pub sends : sent after ≡ sent s ++ bs
    pub keeps : unread after ≡ unread s

  write_all_step :
      (fuel : ℕ) (b : ℕ) (bs : Bytes) (s : C.State)
      → write_all C (suc fuel) (b ∷ bs) s
        ≡ write_all C fuel (drop (C.write (b ∷ bs) s).1 (b ∷ bs)) (C.write (b ∷ bs) s).0
  unfolding write_all
  write_all_step fuel b bs s =
      let w = writes (b ∷ bs) s (λ e. cc) in
      let r = C.write (b ∷ bs) s in
      (λ i. write_step C (b ∷ bs) (r.0, r.1, w.no_error i) (write_all C fuel))
      ∙ (λ i. resume C r.0 (slice_from r.1 (b ∷ bs) w.within i) (write_all C fuel))

  -- With as many rounds as bytes, `SendRaw` on a healthy connection ends and sends every byte.
  pub write_all_sends : (fuel : ℕ) (bs : Bytes) (s : C.State) → length bs ≤ fuel → Sent fuel bs s
  write_all_sends fuel [] s h = record {
    after = s;
    returns = nothing fuel;
    sends = sym (append-nil (sent s));
    keeps = refl;
  }
    where
      nothing : (n : ℕ) → write_all C n [] s ≡ (s, ok tt)
      nothing zero = unfold write_all in refl
      nothing (suc n) = unfold write_all in refl
  write_all_sends zero (b ∷ bs) s h = absurd (omega arith)
  write_all_sends (suc fuel) (b ∷ bs) s h =
      let w = writes (b ∷ bs) s (λ e. cc) in
      let n = (C.write (b ∷ bs) s).1 in
      let left = drop n (b ∷ bs) in
      let m =
        write_all_sends fuel left (C.write (b ∷ bs) s).0
          (omega (arith, length-drop n (b ∷ bs), w.progress, w.within)) in
      record {
        after = m.after;
        returns = write_all_step fuel b bs s ∙ m.returns;
        sends =
            m.sends
            ∙ ap (λ t. t ++ left) w.sends
            ∙ append_assoc (sent s) (take n (b ∷ bs)) left
            ∙ ap (λ t. sent s ++ t) (take-append-drop n (b ∷ bs));
        keeps = m.keeps ∙ w.keeps;
      }

  -- `want` bytes are read in all, and the rest waits.
  pub record Received (fuel want : ℕ) (got next rest : Bytes) (s : C.State) : Type 0 where
    pub after : C.State
    pub returns : read_full C fuel want got s ≡ (after, ok (got ++ next))
    pub leaves : unread after ≡ rest
    pub keeps : sent after ≡ sent s

  read_full_done :
      (fuel : ℕ) (got : Bytes) (s : C.State) → read_full C fuel (length got) got s ≡ (s, ok got)
  unfolding read_full
  read_full_done zero got s = ground arith
  read_full_done (suc fuel) got s = ground arith

  read_full_step :
      (fuel want : ℕ) (got : Bytes) (s : C.State)
      → length got < want
      → (C.read (want - length got) s).2 ≡ none
      → read_full C (suc fuel) want got s
        ≡ read_full C fuel want
            (got ++ (C.read (want - length got) s).1)
            (C.read (want - length got) s).0
  unfolding read_full
  read_full_step fuel want got s h e =
      rw more (λ i. read_step C want got (r.0, r.1, e i) (read_full C fuel want))
    where
      more : leb want (length got) ≡ false
      more = ground arith

      r : C.State × Bytes × Option Error
      r = C.read (want - length got) s

  -- With as many rounds as bytes, `ReceiveRaw` on a healthy connection ends with exactly the bytes
  -- that it was asked for, and leaves what follows them.
  pub read_full_fills :
      (fuel want : ℕ) (got next rest : Bytes) (s : C.State)
      → want ≡ length got + length next
      → unread s ≡ next ++ rest
      → length next ≤ fuel
      → Received fuel want got next rest s
  read_full_fills fuel want got [] rest s w u h = record {
    after = s;
    returns =
        (let full : want ≡ length got = omega arith in rw full (read_full_done fuel got s))
        ∙ ap (λ t. (s, ok t)) (sym (append-nil got));
    leaves = u;
    keeps = refl;
  }
  read_full_fills zero want got (x ∷ next) rest s w u h = absurd (omega arith)
  read_full_fills (suc fuel) want got (x ∷ next) rest s w u h =
      let room = want - length got in
      let t = reads room s (omega arith) (λ e. cc) in
      let chunk = (C.read room s).1 in
      let c =
        append_cut chunk (unread (C.read room s).0) (x ∷ next) rest (sym t.takes ∙ u)
          (omega (arith, t.within)) in
      let m =
        read_full_fills fuel want (got ++ chunk) c.between rest (C.read room s).0
          (omega (
            arith,
            length-append got chunk,
            ap (length {0}) c.longer,
            length-append chunk c.between,
          ))
          c.shorter
          (omega (arith, ap (length {0}) c.longer, length-append chunk c.between, t.progress)) in
      record {
        after = m.after;
        returns =
            read_full_step fuel want got s (omega arith) t.no_error
            ∙ m.returns
            ∙ ap (λ z. (m.after, ok z))
                (append_assoc got chunk c.between ∙ ap (λ z. got ++ z) (sym c.longer));
        leaves = m.leaves;
        keeps = m.keeps ∙ t.keeps;
      }
