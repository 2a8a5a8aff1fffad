-- ===== src/Time/Render.antt =====
-- Timestamps of fixed width as text.
use ha_skywatch.Prelude.{ℕ, ◌+◌, ◌/◌, ◌%◌, [], ◌∷◌, ◌++◌, Text}
use ha_skywatch.Time.Calendar.{Civil}

unfoldable pub pad2 : ℕ → Text
pad2 n = (48 + n / 10) ∷ (48 + n % 10) ∷ []

unfoldable pub pad4 : ℕ → Text
pad4 n = (48 + n / 1000) ∷ (48 + n / 100 % 10) ∷ (48 + n / 10 % 10) ∷ (48 + n % 10) ∷ []

-- YYYY-MM-DD, a separator, HH:MM:SS and a suffix.
unfoldable pub stamp : Civil → ℕ → Text → Text
unfolding pad2 pad4
stamp c sep suffix =
    pad4 c.year
    ++ (b'-'
        ∷ (pad2 c.month
            ++ (b'-'
                ∷ (pad2 c.day
                    ++ (sep
                        ∷ (pad2 c.hours
                            ++ (b':'
                                ∷ (pad2 c.minutes ++ (b':' ∷ (pad2 c.seconds ++ suffix))))))))))
