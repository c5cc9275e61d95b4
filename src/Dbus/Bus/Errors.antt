-- ===== src/Dbus/Bus/Errors.antt =====
-- The `DBusError` of a program whose name request fails. libdbus wants an error that is not set.
use linux_tutorial.Prelude.{◌≡◌, ◌≢◌, Bool, false}
use linux_tutorial.Prog.Logic.{Monitor}
use linux_tutorial.Platform.{minus_one, is_error, is_null}
use linux_tutorial.Dbus.Bus.{
  Call, Reply, error_init, error_free, bus_get, bus_request_name, bus_add_match,
}

-- Whether the error is set, and whether the match was added with one that was.
pub record Error : Type 0 where
  pub set : Bool
  pub added_with_set : Bool

-- There is a connection, and the request of the name fails.
abbrev pub NameFails : (c : Call) → Reply c → Type 0
NameFails bus_get p = p ≢ 0
NameFails (bus_request_name _ _) r = r ≡ minus_one
NameFails _ _ = Unit

abbrev pub after : Error → (c : Call) → Reply c → Error
after s error_init r = record s { set = false }
after s error_free r = record s { set = false }
after s bus_get p = record s { set = is_null p }
after s (bus_request_name _ _) r = record s { set = is_error r }
after s (bus_add_match _ _) r = record s { added_with_set = s.set }
after s _ _ = s

abbrev pub name_fails : Monitor Call Reply
name_fails = record {
  State = Error;
  Allowed = λ _ _. Unit;
  Documented = λ _. NameFails;
  next = after;
}

-- Before the program.
abbrev pub unset : Error
unset = record { set = false; added_with_set = false }
