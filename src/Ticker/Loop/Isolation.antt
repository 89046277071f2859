-- ===== src/Ticker/Loop/Isolation.antt =====
-- The users of one tick do not disturb one another.
use time_bandits.Base.{◌≡◌, Bool, true, not, ◌&&◌, List, [], ◌∷◌, Text, ◌=t◌, if◌then◌else◌, any}
use time_bandits.Jiff.{Jiff, Timestamp}
use time_bandits.Usage.{SegmentConfig}
use time_bandits.Logind.{SessionInfo, sessions_of}
use time_bandits.Ticker.State.{Answers, Effect}
use time_bandits.Ticker.User.{tick_user}
use time_bandits.Ticker.Loop.{Tagged, States, state_of, tick_each}

-- The effects that stand beside a user.
abbrev pub effects_of : Text → List Tagged → List Effect
effects_of subject [] = []
effects_of subject (t ∷ rest) =
    let later = effects_of subject rest in if t.0 =t subject then t.1 ∷ later else later

abbrev pub names : Text → List Text → Bool
names subject subjects = any (λ s. s =t subject) subjects

-- No name stands in the list twice.
abbrev pub are_distinct : List Text → Bool
are_distinct [] = true
are_distinct (s ∷ rest) = not (names s rest) && are_distinct rest

module _ (j : Jiff) where
  module _ (cfg : SegmentConfig) (sessions : List SessionInfo) (now : Timestamp)
      (answers : Text → Answers j) where
    abbrev IsAlone : List Text → States j → Text → Type 0
    IsAlone subjects states subject =
        let after = tick_each j cfg sessions now answers subjects states in
        let alone =
          tick_user j subject cfg (sessions_of sessions subject) now (answers subject)
            (state_of j states subject) in
        (state_of j after.1 subject ≡ alone.state) × (effects_of subject after.0 ≡ alone.effects)
