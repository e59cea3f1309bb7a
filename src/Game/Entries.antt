-- ===== src/Game/Entries.antt =====
-- A property of all entries, against the lookup and the write of one entry.
use ckb_controller.Base.{◌≡◌, some, List, [], ◌∷◌, All, arith}
use ckb_controller.Bytes.{Bytes}
use ckb_controller.Game.{PlayerEntry, find_player, write_player}

pub write_player-All :
    (P : PlayerEntry → Type 0) (h : Bytes) (q : PlayerEntry) (ps : List PlayerEntry)
    → P q
    → All P ps
    → All P (write_player h q ps)
unfolding write_player
write_player-All P h q [] e a = tt
write_player-All P h q (p ∷ ps) e a = ground (arith, write_player-All P h q ps)

pub find_player-All :
    (P : PlayerEntry → Type 0) (h : Bytes) (p : PlayerEntry) (ps : List PlayerEntry)
    → find_player h ps ≡ some p
    → All P ps
    → P p
unfolding find_player
find_player-All P h p [] e a = cc
find_player-All P h p (r ∷ ps) e a =
    ground (arith, λ (f : find_player h ps ≡ some p). find_player-All P h p ps f a.1)
