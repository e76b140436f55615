-- ===== src/Result.antt =====
-- include/psmsgr/psmsgr.h and src/common.c: the result codes, their texts and the version.
use ps_msgr.Prelude.{ℕ, List}
use ps_msgr.Name.{ascii}

-- The `enum` of the result codes; `code` is the number's absolute value.
pub data Rc : Type 0 where
  ok inval sys nodata toosmall toobig busy timeout intr writer_exists mismatch format notsup state :
      Rc

unfoldable pub code : Rc → ℕ
code Rc.ok = 0
code Rc.inval = 1
code Rc.sys = 2
code Rc.nodata = 3
code Rc.toosmall = 4
code Rc.toobig = 5
code Rc.busy = 6
code Rc.timeout = 7
code Rc.intr = 8
code Rc.writer_exists = 9
code Rc.mismatch = 10
code Rc.format = 11
code Rc.notsup = 12
code Rc.state = 13

-- `psmsgr_strerror` of a code of the `enum`.
unfoldable pub strerror : Rc → List ℕ
strerror Rc.ok = ascii "success"
strerror Rc.inval = ascii "invalid argument"
strerror Rc.sys = ascii "system call failed"
strerror Rc.nodata = ascii "no data"
strerror Rc.toosmall = ascii "buffer too small"
strerror Rc.toobig = ascii "payload larger than capacity"
strerror Rc.busy = ascii "channel busy"
strerror Rc.timeout = ascii "timed out"
strerror Rc.intr = ascii "interrupted"
strerror Rc.writer_exists = ascii "another writer holds the channel"
strerror Rc.mismatch = ascii "channel geometry mismatch"
strerror Rc.format = ascii "invalid channel format"
strerror Rc.notsup = ascii "not supported"
strerror Rc.state = ascii "invalid state for this call"
