-- ===== src/League/Joining.antt =====
-- A league that is joined keeps the books balanced.
use crash_game.Prelude.{
  false, ℕ, String, ltb, ◌≡◌, refl, true, Option, none, some, [], ◌∷◌, ◌++◌, find, any, Bool-cases,
  inl, inr,
}
use crash_game.Prelude.Int.{ℤ, pos, ◌+ℤ◌, int_laws}
use crash_game.Ledger.{Table, place_bet}
use crash_game.Fantasy.{SquadPick}
use crash_game.League.{
  is_open, League, House, has_id, is_entry, new_member, with_member, join_debited, join_found,
  entry_ref,
}
use crash_game.League.Accounts.{total, held, assets, debit_total}
use crash_game.League.Conserved.{held_joined}
use crash_game.League.Lawful.{IsLawful, joined-IsLawful}

-- The tables are lawful, and the money is what it was.
pub record IsBalanced (before after : House) : Type 0 where
  pub lawful : IsLawful after
  pub balanced : assets after ≡ assets before

pub unmoved : (house : House) → IsLawful house → IsBalanced house house
unmoved house h = record { lawful = h; balanced = refl }

-- The ledger and the leagues move by opposite amounts.
opposite : (t t' h h' x : ℤ) → t' +ℤ x ≡ t → h' ≡ h +ℤ x → t' +ℤ h' ≡ t +ℤ h
opposite t t' h h' x down up = grind (int_laws, down, up)

module _ (r player_id : String) (squad : SquadPick) (l : League) (house : House)
    (lawful : IsLawful house) where
  debited-IsBalanced :
      find (has_id r) house.leagues ≡ some l
      → is_open l.status ≡ true
      → any (is_entry r player_id) house.members ≡ false
      → IsBalanced house
          (join_debited (new_member r player_id squad house.now) house (
            place_bet player_id
              (pos l.entry_fee_minor)
              (entry_ref "fantasy-entry:" r player_id)
              l.currency
              house.ledger)).1
  debited-IsBalanced found entering new =
      elim (debit_total player_id (pos l.entry_fee_minor) (entry_ref "fantasy-entry:" r player_id)
        l.currency house.ledger) [
          | inl (e, thrown) ↦ rw thrown (unmoved house lawful)
          | inr (b, t', done, down) ↦ rw done (record {
            lawful = with_table t' (
                joined-IsLawful r l (new_member r player_id squad house.now) house refl found new
                  lawful);
            balanced =
                opposite (total house.ledger) (total t') (held house.leagues house.members) _
                  (pos l.entry_fee_minor) down
                  (held_joined r house.leagues house.members
                    (new_member r player_id squad house.now) l lawful.unique refl found entering);
          })
        ]
    where
      with_table :
          (t' : Table)
          → IsLawful (record house {
            members = house.members ++ new_member r player_id squad house.now ∷ [];
          })
          → IsLawful (with_member (new_member r player_id squad house.now) t' house)
      with_table t' h = record {
        unique = h.unique;
        capped = h.capped;
        linked = h.linked;
        keyed = h.keyed;
      }

pub join-IsBalanced :
    (r player_id : String) (squad : SquadPick) (now_ms : ℕ) (house : House) (o : Option League)
    → find (has_id r) house.leagues ≡ o
    → IsLawful house
    → IsBalanced house (join_found r player_id squad now_ms house o).1
join-IsBalanced r player_id squad now_ms house none found lawful = unmoved house lawful
join-IsBalanced r player_id squad now_ms house (some l) found lawful =
    elim (Bool-cases (is_open l.status)) [
      | inr shut ↦ rw shut (unmoved house lawful)
      | inl entering ↦ elim (Bool-cases (ltb now_ms l.deadline)) [
        | inr late ↦ rw (entering, late) (unmoved house lawful)
        | inl early ↦ elim (Bool-cases (any (is_entry r player_id) house.members)) [
          | inl again ↦ rw (entering, early, again) (unmoved house lawful)
          | inr new ↦
              rw (entering, early, new)
                (debited-IsBalanced r player_id squad l house lawful found entering new)
        ]
      ]
    ]
