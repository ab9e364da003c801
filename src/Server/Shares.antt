-- ===== src/Server/Shares.antt =====
-- The shares of model/share.go: what is stored of them, and their hosts. Times are Unix seconds.
use go_hauk.Prelude.{
  if◌then◌else◌, Text, text_eq, Dict, insert, ℕ, ◌+◌, ◌-◌, ◌*◌, ◌%◌, Bool, false, List, [], ◌∷◌,
}

pub record SoloShare : Type 0 where
  pub id : Text
  pub expire : ℕ
  pub host : Text
  pub adoptable : Bool

-- `hosts` from nicknames to session ids, in the order in which Go goes through the map.
pub record GroupShare : Type 0 where
  pub id : Text
  pub expire : ℕ
  pub hosts : Dict Text
  pub group_pin : ℕ

-- What is stored under an id, by `ShareTypeAlone` and `ShareTypeGroup`.
pub data Stored : Type 0 where
  solo_share : SoloShare → Stored
  group_share : GroupShare → Stored

-- `NewSoloShare`, for the id that was made.
abbrev pub new_solo : Text → SoloShare
new_solo id = record { id = id; expire = 0; host = []; adoptable = false }

-- `GroupPinMin` and `GroupPinMax`
abbrev pub group_pin_min : ℕ
group_pin_min = 100000

abbrev pub group_pin_max : ℕ
group_pin_max = 999999

-- `binary.LittleEndian.Uint64`
abbrev pub little_endian : List ℕ → ℕ
little_endian [] = 0
little_endian (b ∷ bs) = b + 256 * little_endian bs

-- The PIN of `NewGroupShare`, for the eight bytes of `cryptoRandInt`.
unfoldable pub group_pin_of : List ℕ → ℕ
group_pin_of bs = group_pin_min + little_endian bs % (group_pin_max - group_pin_min + 1)

-- `NewGroupShare`, for the id that was made and those bytes.
abbrev pub new_group : Text → List ℕ → GroupShare
new_group id bs = record { id = id; expire = 0; hosts = []; group_pin = group_pin_of bs }

-- `AddHost` of a group: its map is not nil, so that the assignment does not panic.
unfoldable pub add_host : Text → Text → GroupShare → GroupShare
add_host nick session_id g = record g { hosts = insert nick session_id g.hosts }

-- The loop of `RemoveHost`: it ends at the first host with the session, in whatever order.
abbrev pub without_host : Text → Dict Text → Dict Text
without_host session_id [] = []
without_host session_id ((nick, sid) ∷ hosts) =
    if text_eq sid session_id then hosts else (nick, sid) ∷ without_host session_id hosts

unfoldable pub remove_host : Text → GroupShare → GroupShare
remove_host session_id g = record g { hosts = without_host session_id g.hosts }

-- What `json.Unmarshal` makes of a share read as a group: of one of the other kind, the fields that
-- both have, and no map of hosts.
abbrev pub as_group : Text → Stored → GroupShare
as_group id (group_share g) = record g { id = id }
as_group id (solo_share s) = record { id = id; expire = s.expire; hosts = []; group_pin = 0 }
