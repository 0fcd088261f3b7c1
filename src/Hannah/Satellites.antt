-- ===== src/Hannah/Satellites.antt =====
-- internal/hannah/satellites.go: the display names of the satellites that Hannah Core knows.
use hannah_logcollector.Prelude.{
  ◌≡◌, ◌≢◌, refl, ◌∙◌, Bool, not, ◌&&◌, List, [], ◌∷◌, map, keep_if, if◌then◌else◌, arith,
}
use hannah_logcollector.Text.{Bytes, equal, is_empty}
use hannah_logcollector.Text.Laws.{equal_iff}
use hannah_logcollector.Store.Sql.{Result, ok, failed}
use hannah_logcollector.Names.{Registry, get, name}

-- A satellite in the answer of Core, with the fields that `Names` reads; they are the same in both
-- generations.
pub record Satellite : Type 0 where
  pub device_id : Bytes
  pub display_name : Bytes

-- What the call meets: whether `NewClient` fails, whether Core speaks hannah.v1 only, and the
-- answer of GetSatellites in the one and in the other generation.
pub record Core : Type 0 where
  pub client_fails : Bool
  pub is_v1 : Bool
  pub v1_satellites : Result (List Satellite)
  pub satellites : Result (List Satellite)

abbrev pub is_named : Satellite → Bool
is_named sat = not (is_empty sat.device_id) && not (is_empty sat.display_name)

-- A round of the loop: a name goes into the map, in front of what the map had for the key.
abbrev pub add_name : Satellite → Registry → Registry
add_name sat names = if is_named sat then (sat.device_id, sat.display_name) ∷ names else names

-- The loop over the answer, which both generations have.
unfoldable pub collect : List Satellite → Registry → Registry
collect [] names = names
collect (sat ∷ rest) names = collect rest (add_name sat names)

abbrev pub collected : Result (List Satellite) → Result Registry
collected failed = failed
collected (ok sats) = ok (collect sats [])

-- `Satellites.Names`
unfoldable pub satellite_names : Core → Result Registry
satellite_names c =
    if c.client_fails
    then failed
    else if c.is_v1
    then collected c.v1_satellites
    else collected c.satellites

-- The last text of a list, or another.
abbrev pub last_or : Bytes → List Bytes → Bytes
last_or s [] = s
last_or s (x ∷ xs) = last_or x xs

-- The names that the answer gives the id.
abbrev pub names_given : Bytes → List Satellite → List Bytes
names_given id sats =
    map (λ (sat : Satellite). sat.display_name)
      (keep_if (λ sat. equal sat.device_id id && not (is_empty sat.display_name)) sats)

-- A name that is added, seen from the key.
add_name_lem :
    (sat : Satellite) (rest : List Satellite) (names : Registry) (id : Bytes)
    → id ≢ []
    → last_or (get (add_name sat names) id) (names_given id rest)
      ≡ last_or (get names id) (names_given id (sat ∷ rest))
unfolding get
add_name_lem sat rest names id h = ground (arith, equal_iff sat.device_id id)

collect_lem :
    (sats : List Satellite) (names : Registry) (id : Bytes)
    → id ≢ []
    → get (collect sats names) id ≡ last_or (get names id) (names_given id sats)
unfolding collect get
collect_lem [] names id h = refl
collect_lem (sat ∷ rest) names id h =
    collect_lem rest (add_name sat names) id h ∙ add_name_lem sat rest names id h

-- The names given are not empty.
last_given :
    (sats : List Satellite) (id s : Bytes)
    → (if is_empty (last_or s (names_given id sats)) then id else last_or s (names_given id sats))
      ≡ last_or (if is_empty s then id else s) (names_given id sats)
last_given [] id s = refl
last_given (sat ∷ rest) id s =
    ground (arith, last_given rest id s, last_given rest id sat.display_name)

-- The satellites that Core answers with, in the generation that it speaks.
abbrev pub answer_of : Core → Result (List Satellite)
answer_of c = if c.client_fails then failed else if c.is_v1 then c.v1_satellites else c.satellites

-- If Core can be reached and answers, in whichever generation: the name of an id that is not empty
-- is the last display name that the answer gives it, where a display name that is empty does not
-- count, and the id itself if there is none.
pub satellite_name :
    (c : Core) (sats : List Satellite) (id : Bytes)
    → answer_of c ≡ ok sats
    → id ≢ []
    → (names : Registry) × (satellite_names c ≡ ok names)
      × (name names id ≡ last_or id (names_given id sats))
unfolding satellite_names name get
satellite_name c sats id answers h =
    (collect sats [], ground arith, rw (collect_lem sats [] id h) (last_given sats id []))
