-- ===== src/Tests/Buttons.antt =====
-- The laws of `Buttons` at concrete sets.
use steam_controller_daemon.Protocol.Buttons.{
  Button, button_x, button_a, button_eq, contains, contains_all, insert, remove, remove_inactive,
}
use steam_controller_daemon.Protocol.Buttons.Laws.{contains_all_iff, Buttons-set}
use steam_controller_daemon.Prelude.{◌≡◌, ◌↔◌, true, ◌==◌, ◌||◌, ◌&&◌, not, arith}

contains_all_iff_example : (contains_all (record { bits = 65540 }) (record { bits = 4 }) ≡ true) ↔ (
    (b : Button)
    → contains (record { bits = 4 }) b ≡ true
    → contains (record { bits = 65540 }) b ≡ true)
contains_all_iff_example =
    contains_all_iff (record { bits = 65540 }) (record { bits = 4 }) (omega arith)

Buttons-set_example :
    (contains (insert (record { bits = 4 }) button_a) button_x
      ≡ (button_x == button_a || contains (record { bits = 4 }) button_x))
    × (contains (remove (record { bits = 4 }) button_a) button_x
        ≡ (not (button_x == button_a) && contains (record { bits = 4 }) button_x))
    × (contains (remove_inactive (record { bits = 4 }) (record { bits = 6 })) button_x
        ≡ (contains (record { bits = 4 }) button_x && contains (record { bits = 6 }) button_x))
Buttons-set_example = Buttons-set (record { bits = 4 }) (record { bits = 6 }) button_a button_x
