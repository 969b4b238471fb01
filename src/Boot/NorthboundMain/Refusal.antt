-- ===== src/Boot/NorthboundMain/Refusal.antt =====
-- What the configuration of the northbound process comes to.
use coap_gateway.Prelude.{
  ℕ, ◌≡◌, refl, Bool, true, false, ◌⊎◌, inl, inr, [], ◌∷◌, any, ◌==◌, Bool-cases, arith,
}
use coap_gateway.Prelude.Int.{pos}
use coap_gateway.Prelude.Text.{Text, codes}
use coap_gateway.Go.{exits, ◌>>=◌}
use coap_gateway.Boot.{
  Dbconfig, no_config, Outside, opens, pings, connects_redis, Boot, act, fatal_if,
}
use coap_gateway.Boot.NorthboundMain.{processed, main_with, northbound_main}

-- The data source ":?parseTime=true".
abbrev pub empty_uri : Text
empty_uri = codes ":?parseTime=true"

-- The reflection of Go cannot set a field that is not exported, so that envconfig fills in nothing
-- for a Dbconfig; and a data source without a slash is refused by the driver, when it is opened
-- or when it is pinged.
pub record IsOutside (o : Outside) : Type 0 where
  pub unexported : (prefix : Text) (c : Dbconfig) → (o.process prefix c).0 ≡ c
  pub dsn_slash :
      (uri : Text)
      → any (λ c. c == b'/') uri ≡ false
      → (o.open_fails uri ≡ true) ⊎ (o.ping_fails uri ≡ true)

-- The calls of a process that has ended before it listens.
abbrev pub Refused : Boot → Boot → Type 0
Refused b b' =
    (b'.catalog ≡ b.catalog)
    × ((b'.acts ≡ b.acts)
        ⊎ ((b'.acts ≡ opens empty_uri ∷ b.acts)
            ⊎ (b'.acts
                ≡ pings empty_uri ∷ connects_redis [] [] (pos 0) ∷ opens empty_uri ∷ b.acts)))

module _ (o : Outside) (law : IsOutside o) (fault : ℕ → Bool) (b : Boot) where
  main_with-Refused :
      (failed : Bool)
      → ((main_with o fault (no_config, failed) b).0 ≡ exits)
        × Refused b (main_with o fault (no_config, failed) b).1
  unfolding main_with act fatal_if ◌>>=◌
  main_with-Refused true = (refl, (refl, inl refl))
  main_with-Refused false = elim (Bool-cases (o.open_fails empty_uri)) [
    | inl q ↦ rw q (refl, (refl, inr (inl refl)))
    | inr q ↦
        let p : o.ping_fails empty_uri ≡ true = ground (arith, q, law.dsn_slash empty_uri refl) in
        rw (q, p) (refl, (refl, inr (inr refl)))
  ]

  processed-empty : processed o ≡ (no_config, (processed o).1)
  processed-empty = ground (
    arith,
    law.unexported (codes "db") no_config,
    law.unexported (codes "cache") (o.process (codes "db") no_config).0,
  )

  -- Whatever the environment holds, and with envconfig and the MySQL driver as documented, the
  -- northbound process ends before it listens: the data source that it opens is ":?parseTime=true",
  -- which is refused, no table is created, and no request is served.
  pub northbound_exits :
      ((northbound_main o fault b).0 ≡ exits) × Refused b (northbound_main o fault b).1
  unfolding northbound_main
  northbound_exits = rw processed-empty (main_with-Refused (processed o).1)
