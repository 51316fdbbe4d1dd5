-- ===== src/Sound/Tests.antt =====
-- The first beep, at a machine whose ports all read as 0.
use illinix_os.Base.{[]}
use illinix_os.Io.{Devices}
use illinix_os.Sound.{Speaker}

abbrev quiet : Devices
quiet = λ t port. 0

abbrev start : Speaker
start = record { sound_freq = 1200; trace = [] }
