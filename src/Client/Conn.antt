-- ===== src/Client/Conn.antt =====
-- The connection that the client holds, an `io.ReadWriteCloser`: a parameter, with the loops that
-- the client and `io.ReadFull` run over it.
use mh2c_go.Base.{
  ℕ, zero, suc, ◌-◌, [], ◌∷◌, ◌++◌, leb, if◌then◌else◌, length, Option, none, some, Bytes, Result,
  Error, ok, err, panic, diverge, eof, unexpected_eof, slice,
}
use mh2c_go.Base.State.{M}

-- `write` takes the bytes and says how many it wrote; `read` takes the room and gives the bytes read.
-- Each gives an error beside that, as Go's methods do.
pub record Conn : Type 1 where
  pub State : Type 0
  pub write : Bytes → State → State × ℕ × Option Error
  pub read : ℕ → State → State × Bytes × Option Error
  pub close : M State (Unit {0})

-- `io.ReadFull` answers an end of file behind some bytes with another error.
abbrev at_end : Error → Bytes → Error
at_end eof (_ ∷ _) = unexpected_eof
at_end why _ = why

module _ (C : Conn) where
  -- What follows the cut `data[n:]`.
  abbrev pub resume :
      C.State → Result Bytes → (Bytes → M C.State (Unit {0})) → C.State × Result (Unit {0})
  resume s (ok rest) more = more rest s
  resume s (err why) more = (s, err why)
  resume s panic more = (s, panic)
  resume s diverge more = (s, diverge)

  abbrev pub write_step :
      Bytes
      → C.State × ℕ × Option Error
      → (Bytes → M C.State (Unit {0}))
      → C.State × Result (Unit {0})
  write_step out (s, n, some why) more = (s, err why)
  write_step out (s, n, none) more = resume s (slice n (length out) out) more

  -- `for len(data) > 0 { n, err := Write(data); …; data = data[n:] }`, for at most `fuel` rounds.
  unfoldable pub write_all : ℕ → Bytes → M C.State (Unit {0})
  write_all fuel [] s = (s, ok tt)
  write_all zero (b ∷ bs) s = (s, diverge)
  write_all (suc fuel) (b ∷ bs) s = write_step (b ∷ bs) (C.write (b ∷ bs) s) (write_all fuel)

  abbrev pub read_step :
      ℕ
      → Bytes
      → C.State × Bytes × Option Error
      → (Bytes → M C.State Bytes)
      → C.State × Result Bytes
  read_step want got (s, chunk, none) more = more (got ++ chunk) s
  read_step want got (s, chunk, some why) more =
      if leb want (length (got ++ chunk))
      then (s, ok (got ++ chunk))
      else (s, err (at_end why (got ++ chunk)))

  -- `io.ReadFull` into a buffer of `want` bytes, from the bytes that it `got` so far.
  unfoldable pub read_full : ℕ → ℕ → Bytes → M C.State Bytes
  read_full zero want got s = (s, if leb want (length got) then ok got else diverge)
  read_full (suc fuel) want got s =
      let more = read_step want got (C.read (want - length got) s) (read_full fuel want) in
      if leb want (length got) then (s, ok got) else more
