-- ===== src/Staff/Reassigned.antt =====
-- What `reassignTeam` moves.
use teamos_backend.Prelude.{
  ℕ, ◌+◌, ◌<◌, ◌≡◌, refl, inl, inr, Bool, true, false, Bool-cases, Option, none, some, List, [],
  ◌∷◌, Key, arith, update_by, count_by, same_key, ok, ◌==◌, ◌&&◌,
}
use teamos_backend.Directory.{UserProfile}
use teamos_backend.Staff.Model.{StaffDb, ReassignTeamDto}
use teamos_backend.Staff.Users.{check_reassign, reassign_team, is_reassigned, set_supervisor}

-- The users of the organization whose supervisor the user is.
abbrev pub reports_to : Key → Key → UserProfile → Bool
reports_to org user p = same_key p.supervisor_id (some user) && p.organization_id == org

abbrev pub team_size : Key → Key → StaffDb → ℕ
team_size org user db = count_by (reports_to org user) db.profiles

moved_reports :
    (org current target : Key) (users : Option (List Key)) (p : UserProfile)
    → is_reassigned org current users p ≡ true
    → reports_to org current p ≡ true
moved_reports org current target none p h = h
moved_reports org current target (some us) p h = ground arith

moved_here :
    (org current target : Key) (users : Option (List Key)) (ps : List UserProfile)
    → (current == target) ≡ false
    → count_by
        (reports_to org target)
        (update_by (is_reassigned org current users) (set_supervisor target) ps)
      ≡ count_by (reports_to org target) ps + count_by (is_reassigned org current users) ps
moved_here org current target users [] ne = refl
moved_here org current target users (p ∷ ps) ne =
    let ih = moved_here org current target users ps ne in
    elim (Bool-cases (is_reassigned org current users p)) [
      | inl e ↦ let was = moved_reports org current target users p e in rw e (ground arith)
      | inr e ↦ rw e (ground arith)
    ]

moved_away :
    (org current target : Key) (users : Option (List Key)) (ps : List UserProfile)
    → (current == target) ≡ false
    → count_by
          (reports_to org current)
          (update_by (is_reassigned org current users) (set_supervisor target) ps)
        + count_by (is_reassigned org current users) ps
      ≡ count_by (reports_to org current) ps
moved_away org current target users [] ne = refl
moved_away org current target users (p ∷ ps) ne =
    let ih = moved_away org current target users ps ne in
    elim (Bool-cases (is_reassigned org current users p)) [
      | inl e ↦ let was = moved_reports org current target users p e in rw e (ground arith)
      | inr e ↦ rw e (ground arith)
    ]

reassign_team-facts :
    (org current : Key) (dto : ReassignTeamDto) (db new : StaffDb) (n : ℕ)
    → reassign_team org current dto db ≡ ok (n, new)
    → (0 < n)
      × (n ≡ count_by (is_reassigned org current dto.member_ids) db.profiles)
      × (new.profiles
          ≡ update_by
              (is_reassigned org current dto.member_ids)
              (set_supervisor dto.target_supervisor_id)
              db.profiles)
unfolding reassign_team check_reassign
reassign_team-facts org current dto db new n h = (ground arith, ground arith, ground arith)

-- A reassignment to another supervisor that answers `n` moves `n` users, at least one: the team of
-- the old supervisor is `n` smaller and that of the new one `n` larger.
pub reassign_team-moves :
    (org current : Key) (dto : ReassignTeamDto) (db new : StaffDb) (n : ℕ)
    → (current == dto.target_supervisor_id) ≡ false
    → reassign_team org current dto db ≡ ok (n, new)
    → (0 < n)
      × (team_size org current new + n ≡ team_size org current db)
      × (team_size org dto.target_supervisor_id new ≡ team_size org dto.target_supervisor_id db + n)
reassign_team-moves org current dto db new n ne h =
    let (some_moved, count, rows) = reassign_team-facts org current dto db new n h in
    let target = dto.target_supervisor_id in
    (
      some_moved,
      rw (rows, count) (moved_away org current target dto.member_ids db.profiles ne),
      rw (rows, count) (moved_here org current target dto.member_ids db.profiles ne),
    )
