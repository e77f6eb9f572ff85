-- ===== src/Drivers/Tty/Ldisc/Tests.antt =====
-- A short line through the discipline.
use wey_os.Base.{ℕ, ◌≡◌, ◌≢◌, refl, true, some, none, [], ◌∷◌, arith, ok, List}
use wey_os.Drivers.Tty.Ldisc.{Data, Tty, fresh, receive, receive_all, read}
use wey_os.Drivers.Tty.Ldisc.Ring.{IsRing, contents}
use wey_os.Drivers.Tty.Ldisc.Refine.{
  feed_all, any_newline, take_line, receive_all-feed_all, read-take_line, read-receive_all,
}

abbrev tty : Tty
tty = record { ldisc = some fresh; has_write = true }

-- "ab", a backspace, "c" and a newline
abbrev typed : List ℕ
typed = 97 ∷ 98 ∷ 8 ∷ 99 ∷ 10 ∷ []

received : contents (receive_all true fresh typed).0 ≡ 97 ∷ 99 ∷ 10 ∷ []
unfolding receive_all receive
received = refl

fresh-IsRing : IsRing fresh
fresh-IsRing = record {
  storage = refl;
  tail_lt = omega arith;
  count_le = omega arith;
  head_at = refl;
}

receive_all-feed_all_example :
    IsRing (receive_all true fresh typed).0
    × (contents (receive_all true fresh typed).0 ≡ feed_all (contents fresh) typed)
    × ((receive_all true fresh typed).2 ≡ any_newline typed)
receive_all-feed_all_example = receive_all-feed_all true fresh typed fresh-IsRing

read-take_line_example :
    (contents fresh ≡ [] → read tty 5 ≡ none)
    × (contents fresh ≢ []
        → (e : Data) × (read tty 5
            ≡ some (ok (take_line 5 (contents fresh)).0, record tty { ldisc = some e }))
          × IsRing e
          × (contents e ≡ (take_line 5 (contents fresh)).1))
read-take_line_example = read-take_line tty fresh 4 refl fresh-IsRing

read-receive_all_example :
    (e : Data) × (read
        (record tty { ldisc = some (receive_all true fresh (97 ∷ 98 ∷ 10 ∷ [])).0 })
        5
      ≡ some (ok (97 ∷ 98 ∷ 10 ∷ []), record tty { ldisc = some e }))
    × (contents e ≡ [])
read-receive_all_example =
    read-receive_all tty fresh (97 ∷ 98 ∷ []) 4 fresh-IsRing refl (omega arith) (omega arith)
      (omega arith)
