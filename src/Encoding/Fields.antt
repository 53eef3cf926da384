-- ===== src/Encoding/Fields.antt =====
-- What each field writer of mvm/encoding appends, and that its reader takes it off again.
use trusted_group.Base.{
  ℕ, ◌≤◌, ◌≡◌, refl, Bytes, le→ltb, length, List, [], ◌∷◌, ◌++◌, some, append_assoc, ◌∙◌,
  append-nil, All,
}
use trusted_group.Base.{ok}
use trusted_group.External.{Integers, Wire}
use trusted_group.Encoding.Common.{put_int, write_uuid, write_bytes, read_uuid}
use trusted_group.Encoding.Messages.{write_members, read_members}

module _ ⦃ints : Integers⦄ ⦃wire : Wire⦄ where
  open wire use {
    write_int, read_bytes, Uuid, uuid_bytes, uuid_string, fits_small, read_exact-append,
    read_bytes-write, length-uuid_bytes, uuid_from_bytes-uuid_bytes, uuid_from_string-uuid_string,
    read_exact,
  }

  -- A text that is the canonical form of an identifier.
  abbrev pub IsUuid : Bytes → Type 0
  IsUuid id = (u : Uuid) × (id ≡ uuid_string u)

  abbrev pub uuids_bytes : (ids : List Bytes) → All IsUuid ids → Bytes
  uuids_bytes [] h = []
  uuids_bytes (id ∷ ids) (h, hs) = uuid_bytes h.0 ++ uuids_bytes ids hs

  abbrev pub field_bytes : Bytes → Bytes
  field_bytes b = write_int (length b) ++ b

  pub put_int_lem : (enc : Bytes) (n : ℕ) → n ≤ 256 → put_int enc n ≡ ok (enc ++ write_int n)
  unfolding put_int
  put_int_lem enc n h = rw (fits_small n h)

  pub write_uuid_lem :
      (enc id : Bytes) (h : IsUuid id) → write_uuid enc id ≡ ok (enc ++ uuid_bytes h.0)
  unfolding write_uuid
  write_uuid_lem enc id (u, e) = rw e (rw (uuid_from_string-uuid_string u, write_uuid))

  pub write_bytes_lem :
      (enc b : Bytes) → length b ≤ 256 → write_bytes enc b ≡ ok (enc ++ field_bytes b)
  unfolding write_bytes
  write_bytes_lem enc b h = rw (le→ltb 256 (length b) h, put_int_lem enc (length b) h, append_assoc)

  pub write_members_lem :
      (enc : Bytes) (ids : List Bytes) (h : All IsUuid ids)
      → write_members enc ids ≡ ok (enc ++ uuids_bytes ids h)
  unfolding write_members
  write_members_lem enc [] h = rw append-nil
  write_members_lem enc (id ∷ ids) (h, hs) =
      rw (write_uuid_lem enc id h)
        (write_members_lem (enc ++ uuid_bytes h.0) ids hs ∙ rw append_assoc)

  pub read_uuid_lem :
      (id rest : Bytes) (h : IsUuid id) → read_uuid (uuid_bytes h.0 ++ rest) ≡ ok (id, rest)
  unfolding read_uuid
  read_uuid_lem id rest (u, e) = rw (taken, uuid_from_bytes-uuid_bytes u, e)
    where
      taken : read_exact 16 (uuid_bytes u ++ rest) ≡ some (uuid_bytes u, rest)
      taken = rw (length-uuid_bytes u) at (read_exact-append (uuid_bytes u) rest)

  pub read_field_lem :
      (b rest : Bytes) → length b ≤ 256 → read_bytes (field_bytes b ++ rest) ≡ some (b, rest)
  read_field_lem b rest h = rw append_assoc (read_bytes-write b rest (fits_small (length b) h))

  pub read_members_lem :
      (ids : List Bytes) (rest : Bytes) (h : All IsUuid ids)
      → read_members (length ids) (uuids_bytes ids h ++ rest) ≡ ok (ids, rest)
  unfolding read_members
  read_members_lem [] rest h = refl
  read_members_lem (id ∷ ids) rest (h, hs) =
      rw (
        append_assoc,
        read_uuid_lem id (uuids_bytes ids hs ++ rest) h,
        read_members_lem ids rest hs,
      )
