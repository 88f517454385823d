-- ===== src/Lists/VcdCap.antt =====
-- The VCD_CAP_* of src/vcd/auth.h.
use vcd.Base.{ℕ, ◌^◌}

abbrev pub auth : ℕ
auth = 2 ^ 0

abbrev pub dlim : ℕ
dlim = 2 ^ 1

abbrev pub init : ℕ
init = 2 ^ 2

abbrev pub mount : ℕ
mount = 2 ^ 3

abbrev pub net : ℕ
net = 2 ^ 4

abbrev pub bcap : ℕ
bcap = 2 ^ 5

abbrev pub ccap : ℕ
ccap = 2 ^ 6

abbrev pub cflag : ℕ
cflag = 2 ^ 7

abbrev pub rlim : ℕ
rlim = 2 ^ 8

abbrev pub sched : ℕ
sched = 2 ^ 9

abbrev pub uname : ℕ
uname = 2 ^ 10

abbrev pub create : ℕ
create = 2 ^ 11

abbrev pub exec : ℕ
exec = 2 ^ 12

abbrev pub info : ℕ
info = 2 ^ 13

abbrev pub helper : ℕ
helper = 2 ^ 63
