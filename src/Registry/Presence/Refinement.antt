-- ===== src/Registry/Presence/Refinement.antt =====
-- Redis and the two operations on it implement the board.
use coap_gateway.Prelude.{
  ℕ, suc, ◌+◌, ◌≡◌, refl, Bool, true, false, Option, none, some, List, [], ◌∷◌, arith,
}
use coap_gateway.Prelude.Int.{ℤ}
use coap_gateway.Prelude.Text.{Text}
use coap_gateway.Go.{◌>>=◌}
use coap_gateway.Registry.Schema.{Database}
use coap_gateway.Registry.World.{Engine, World, IsCache, query_row, cache_set, cache_get}
use coap_gateway.Registry.Statements.{select_time_left}
use coap_gateway.Registry.Presence.{update_session, lookup_private_ip, hour, unspecified_address}
use coap_gateway.Registry.Presence.Board.{
  Board, empty_board, Update, logs_in, logs_out, waits, updated, updated_all, visible, shown,
}

abbrev pub has_seconds : Option (Option ℤ) → Bool
has_seconds none = false
has_seconds (some none) = false
has_seconds (some (some left)) = true

module _ (e : Engine) where
  -- The world after an update.
  abbrev pub perform_update : Update → World → World
  perform_update (logs_in device user access pod) w =
      (update_session e device user access pod true w).1
  perform_update (logs_out device user access pod) w =
      (update_session e device user access pod false w).1
  perform_update (waits n) w = record w { now = w.now + n }

  abbrev pub perform_updates : List Update → World → World
  perform_updates [] w = w
  perform_updates (u ∷ us) w = perform_updates us (perform_update u w)

  -- Whether the device has a token with an expiry.
  abbrev pub registered : Database → Text → ℕ → Bool
  registered d device now = has_seconds (select_time_left e device now d)

  pub record Shows (d : Database) (b : Board) (w : World) : Type 0 where
    clock : w.now ≡ b.now
    database : w.db ≡ d
    entries : (t : ℕ) (k : Text) → e.cached w.cache t k ≡ visible (b.postings k) t

  module _ (c : IsCache e) (quiet : (n : ℕ) → e.fault n ≡ false) (d : Database) where
    abbrev board_after : Update → Board → Board
    board_after u b = updated (registered d) unspecified_address hour u b

    -- A login, for what the query for the seconds left finds.
    login-Shows :
        (o : Option (Option ℤ)) (device user access pod : Text) (b : Board) (w : World)
        → Shows d b w
        → select_time_left e device w.now w.db ≡ o
        → select_time_left e device b.now d ≡ o
        → Shows d
            (board_after (logs_in device user access pod) b)
            (perform_update (logs_in device user access pod) w)
    unfolding update_session query_row cache_set ◌>>=◌
    login-Shows none device user access pod b w s p q = record {
      clock = ground (arith, quiet w.calls, s.clock, p, q);
      database = ground (arith, quiet w.calls, s.database, p, q);
      entries = λ t k. ground (arith, quiet w.calls, s.entries t k, p, q);
    }
    login-Shows (some none) device user access pod b w s p q = record {
      clock = ground (arith, quiet w.calls, s.clock, p, q);
      database = ground (arith, quiet w.calls, s.database, p, q);
      entries = λ t k. ground (arith, quiet w.calls, s.entries t k, p, q);
    }
    login-Shows (some (some left)) device user access pod b w s p q = record {
      clock = ground (arith, quiet w.calls, quiet (suc w.calls), s.clock, p, q);
      database = ground (arith, quiet w.calls, quiet (suc w.calls), s.database, p, q);
      entries = λ t k. ground (
        arith,
        quiet w.calls,
        quiet (suc w.calls),
        p,
        q,
        s.entries t k,
        s.clock,
        c.cached-cons (record { key = device; value = pod; ttl = hour; at = w.now }) w.cache t k,
      );
    }

    -- One update keeps what the board shows.
    update-Shows :
        (u : Update) (b : Board) (w : World)
        → Shows d b w
        → Shows d (board_after u b) (perform_update u w)
    unfolding update_session cache_set ◌>>=◌
    update-Shows (waits n) b w s = record {
      clock = omega (arith, s.clock);
      database = s.database;
      entries = s.entries;
    }
    update-Shows (logs_out device user access pod) b w s = record {
      clock = ground (arith, quiet w.calls, s.clock);
      database = ground (arith, quiet w.calls, s.database);
      entries = λ t k. ground (
        arith,
        quiet w.calls,
        s.entries t k,
        c.cached-cons (record { key = device; value = unspecified_address; ttl = 0; at = w.now })
            w.cache t k,
      );
    }
    update-Shows (logs_in device user access pod) b w s =
        login-Shows (select_time_left e device w.now w.db) device user access pod b w s refl
          (rw (s.clock, s.database) refl)

    pub lookup-shown :
        (b : Board) (w : World) (k : Text)
        → Shows d b w
        → (lookup_private_ip e k w).0 ≡ shown (visible (b.postings k) b.now)
    unfolding lookup_private_ip cache_get ◌>>=◌
    lookup-shown b w k s = ground (arith, quiet w.calls, s.entries w.now k, s.clock)

    updates-Shows :
        (us : List Update) (b : Board) (w : World)
        → Shows d b w
        → Shows d (updated_all (registered d) unspecified_address hour us b) (perform_updates us w)
    updates-Shows [] b w s = s
    updates-Shows (u ∷ us) b w s =
        updates-Shows us (board_after u b) (perform_update u w) (update-Shows u b w s)

  -- While nothing fails, after any sequence of logins, logouts and waits, for any devices, users,
  -- tokens and pods, that begins with an empty Redis, a lookup returns what the board shows for the
  -- device: the pod of its last login for an hour, "::/128" from a logout on, and redis.Nil
  -- otherwise, where a login counts if and only if the device has a token with an expiry.
  pub presence_refines_board :
      (c : IsCache e) (quiet : (n : ℕ) → e.fault n ≡ false) (us : List Update) (w : World)
      (k : Text)
      → w.cache ≡ []
      → let b = updated_all (registered w.db) unspecified_address hour us (empty_board w.now) in
        (lookup_private_ip e k (perform_updates us w)).0 ≡ shown (visible (b.postings k) b.now)
  presence_refines_board c quiet us w k h = lookup-shown c quiet w.db _ _ k (
      updates-Shows c quiet w.db us (empty_board w.now) w
        (record { clock = refl; database = refl; entries = λ t j. rw h (c.cached-nil t j) }))
