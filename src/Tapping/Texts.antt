-- ===== src/Tapping/Texts.antt =====
-- The operators `<<` of examples/tapping/resources.hpp and examples/tapping/parameters.hpp for output
-- streams.
use flexman.Stream.{Stream, Printable, ◌<<◌, setw, setprecision, fixed, right, put, put_double}
use flexman.Printing.{Shown}
use flexman.Tapping.{Resources}
use flexman.Tapping.Systems.{Parameters}

module _ {ℓ} {Real : Type ℓ} ⦃p : Printable Real⦄ where
  unfoldable pub put_tapping_resources : Resources Real → Stream → Stream
  put_tapping_resources rhs lhs =
      lhs
      << fixed
      << put "("
      << setprecision 3
      << setw 6
      << right
      << put_double rhs.time
      << put ","
      << setprecision 3
      << setw 8
      << right
      << put_double rhs.energy
      << put ")"

  instance abbrev pub shown_resources : Shown (Resources Real)
  shown_resources = record { put_resources = put_tapping_resources }

  unfoldable pub put_parameters : Parameters Real → Stream → Stream
  put_parameters rhs lhs =
      lhs
      << put "["
      << put_double rhs.v
      << put ", "
      << put_double rhs.r
      << put ", "
      << put_double rhs.l
      << put ", "
      << put_double rhs.j
      << put ", "
      << put_double rhs.kb
      << put ", "
      << put_double rhs.ke
      << put ", "
      << put_double rhs.kt
      << put ", "
      << put_double rhs.fd
      << put ", "
      << put_double rhs.fs
      << put ", "
      << put_double rhs.ts
      << put ", "
      << put_double rhs.gr
      << put ", "
      << put_double rhs.sc
      << put ", "
      << put_double rhs.st
      << put "]"
