-- ===== src/Pic/Tests.antt =====
-- Controllers that give back the masks written to them, and the theorems at work on them.
use illinix_os.Base.{ℕ, ◌/◌, ◌%◌, ◌≡◌, refl, arith, ◌==◌, if◌then◌else◌, true, false, [], ◌∷◌}
use illinix_os.Io.{Event, Trace, Devices, cli, sti, outb, inb, interrupt_flag}
use illinix_os.Pic.{Pic, i8259_init}
use illinix_os.Pic.Masks.{words_left, keeps_mask, ReadsBack, IsSynced, masked, i8259_init-masked}

-- A mask register: it begins as 0xFF, an initialisation clears it, and the words of the initialisation
-- are no masks.
abbrev pub register : ℕ → ℕ → Trace → ℕ
register command mask [] = 0xFF
register command mask (cli ∷ t) = register command mask t
register command mask (sti ∷ t) = register command mask t
register command mask (inb port ∷ t) = register command mask t
register command mask (outb v port ∷ t) =
    let rest = register command mask t in
    if port == command
    then (if v / 16 % 2 == 1 then 0 else rest)
    else if port == mask
    then (if words_left command mask t == 0 then v else rest)
    else rest

-- Two controllers.
abbrev pub controllers : Devices
controllers t port =
    if port == 0x21
    then register 0x20 0x21 t
    else if port == 0xA1
    then register 0xA0 0xA1 t
    else 0xFF

register-kept :
    (command mask : ℕ) (t : Trace) (e : Event)
    → keeps_mask command mask e ≡ true
    → register command mask (e ∷ t) ≡ register command mask t
register-kept command mask t cli h = refl
register-kept command mask t sti h = refl
register-kept command mask t (inb port) h = refl
register-kept command mask t (outb v port) h = ground arith

pub controllers-ReadsBack : ReadsBack controllers
controllers-ReadsBack = record {
  master = λ t v low ready. rw ready refl;
  slave = λ t v low ready. rw ready refl;
  master_kept = λ t e h. register-kept 0x20 0x21 t e h;
  slave_kept = λ t e h. register-kept 0xA0 0xA1 t e h;
}

abbrev pub start : Pic
start = record { master_mask = 0xFF; slave_mask = 0xFF; trace = [] }

pub start-IsSynced : IsSynced controllers start
start-IsSynced = record {
  master = refl;
  slave = refl;
  master_ready = refl;
  slave_ready = refl;
  master_byte = omega arith;
  slave_byte = omega arith;
}

i8259_init-masked_example :
    (masked (i8259_init controllers start) 2 ≡ 0)
    × IsSynced controllers (i8259_init controllers start)
    × (interrupt_flag false (i8259_init controllers start).trace ≡ true)
i8259_init-masked_example =
    i8259_init-masked controllers controllers-ReadsBack start 2 (omega arith)
