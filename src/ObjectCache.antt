-- ===== src/ObjectCache.antt =====
-- src/vsg/io/ObjectCache.cpp: objects by filename and options, with the time of their last use. The
-- counts of references are what Object::referenceCount() returns; `drop` is what the release of a
-- reference to an object does to them. Each call is one step under the mutex.
pub mod View
pub mod Distinct
pub mod Refine
pub mod Expiry
pub mod Tests
use vsg.Base.{
  ℕ, Bool, true, false, Option, none, some, List, [], ◌∷◌, ◌==◌, ◌&&◌, ltb, if◌then◌else◌,
}

-- A FilenameOption: the characters of the filename, and the address of the options.
pub record Key : Type 0 where
  pub filename : List ℕ
  pub options : ℕ

unfoldable pub equal : List ℕ → List ℕ → Bool
equal [] [] = true
equal (a ∷ s) (b ∷ t) = a == b && equal s t
equal _ _ = false

unfoldable pub same_key : Key → Key → Bool
same_key j k = equal j.filename k.filename && j.options == k.options

-- An object of address 0 is null.
pub record ObjectTimepoint : Type 0 where
  pub object : ℕ
  pub unused_duration_before_expiry : ℕ
  pub last_used_timepoint : ℕ

abbrev pub Entries : Type 0
Entries = List (Key × ObjectTimepoint)

pub record ObjectCache : Type 0 where
  pub default_unused_duration : ℕ
  pub entries : Entries

unfoldable pub find : Key → Entries → Option ObjectTimepoint
find k [] = none
find k ((j, ot) ∷ l) = if same_key j k then some ot else find k l

-- _objectCacheMap[k] = ot.
unfoldable pub assign : Key → ObjectTimepoint → Entries → Entries
assign k ot [] = (k, ot) ∷ []
assign k ot ((j, old) ∷ l) = if same_key j k then (j, ot) ∷ l else (j, old) ∷ assign k ot l

unfoldable pub erase : Key → Entries → Entries
erase k [] = []
erase k ((j, ot) ∷ l) = if same_key j k then l else (j, ot) ∷ erase k l

unfoldable pub clear : ObjectCache → ObjectCache
clear c = record c { entries = [] }

abbrev pub is_some : {A : Type 0} → Option A → Bool
is_some none = false
is_some (some x) = true

unfoldable pub contains : Key → ObjectCache → Bool
contains k c = is_some (find k c.entries)

abbrev pub used : ℕ → Option ObjectTimepoint → Key → ObjectCache → ℕ × ObjectCache
used now none k c = (0, c)
used now (some ot) k c =
    (ot.object, record c { entries = assign k (record ot { last_used_timepoint = now }) c.entries })

unfoldable pub get : ℕ → Key → ObjectCache → ℕ × ObjectCache
get now k c = used now (find k c.entries) k c

unfoldable pub add : ℕ → ℕ → Key → ObjectCache → ObjectCache
add now object k c =
    let ot : ObjectTimepoint = record {
      object = object;
      unused_duration_before_expiry = c.default_unused_duration;
      last_used_timepoint = now;
    } in
    record c { entries = assign k ot c.entries }

unfoldable pub remove : Key → ObjectCache → ObjectCache
remove k c = record c { entries = erase k c.entries }

unfoldable pub without_object : ℕ → Entries → Entries
without_object object [] = []
without_object object ((k, ot) ∷ l) =
    let rest = without_object object l in if ot.object == object then rest else (k, ot) ∷ rest

unfoldable pub remove_object : ℕ → ObjectCache → ObjectCache
remove_object object c = record c { entries = without_object object c.entries }

abbrev pub Counts : Type 0
Counts = ℕ → ℕ

-- `late` compares the time since the last use with the duration.
module _ (drop : ℕ → Counts → Counts) (late : ℕ → ℕ → ℕ → Bool) where
  abbrev pub kept : Key → ObjectTimepoint → Option (Entries × Counts) → Option (Entries × Counts)
  kept k ot none = none
  kept k ot (some (l, counts)) = some ((k, ot) ∷ l, counts)

  -- The loop of removeExpiredUnusedObjects; a null object is dereferenced, which is undefined.
  unfoldable pub expire : ℕ → Entries → Counts → Option (Entries × Counts)
  expire now [] counts = some ([], counts)
  expire now ((k, ot) ∷ l) counts =
      let still_used = kept k (record ot { last_used_timepoint = now }) (expire now l counts) in
      let erased = expire now l (drop ot.object counts) in
      let unexpired = kept k ot (expire now l counts) in
      if ot.object == 0
      then none
      else if ltb 1 (counts ot.object)
      then still_used
      else if late now ot.last_used_timepoint ot.unused_duration_before_expiry
      then erased
      else unexpired
