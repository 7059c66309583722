-- ===== src/Csr/Addr.antt =====
-- src/csr.rs, "CSR 地址常量": the addresses of the control and status registers.
use qemu_rust_risc_v.Prelude.{ℕ}

abbrev pub mstatus : ℕ
mstatus = 0x300

abbrev pub misa : ℕ
misa = 0x301

abbrev pub medeleg : ℕ
medeleg = 0x302

abbrev pub mideleg : ℕ
mideleg = 0x303

abbrev pub mie : ℕ
mie = 0x304

abbrev pub mtvec : ℕ
mtvec = 0x305

abbrev pub mcounteren : ℕ
mcounteren = 0x306

abbrev pub menvcfg : ℕ
menvcfg = 0x30A

abbrev pub mcountinhibit : ℕ
mcountinhibit = 0x320

abbrev pub mscratch : ℕ
mscratch = 0x340

abbrev pub mepc : ℕ
mepc = 0x341

abbrev pub mcause : ℕ
mcause = 0x342

abbrev pub mtval : ℕ
mtval = 0x343

abbrev pub mip : ℕ
mip = 0x344

abbrev pub mtinst : ℕ
mtinst = 0x34A

abbrev pub mtval2 : ℕ
mtval2 = 0x34B

abbrev pub mvendorid : ℕ
mvendorid = 0xF11

abbrev pub marchid : ℕ
marchid = 0xF12

abbrev pub mimpid : ℕ
mimpid = 0xF13

abbrev pub mhartid : ℕ
mhartid = 0xF14

abbrev pub sstatus : ℕ
sstatus = 0x100

abbrev pub sedeleg : ℕ
sedeleg = 0x102

abbrev pub sideleg : ℕ
sideleg = 0x103

abbrev pub sie : ℕ
sie = 0x104

abbrev pub stvec : ℕ
stvec = 0x105

abbrev pub scounteren : ℕ
scounteren = 0x106

abbrev pub senvcfg : ℕ
senvcfg = 0x10A

abbrev pub sscratch : ℕ
sscratch = 0x140

abbrev pub sepc : ℕ
sepc = 0x141

abbrev pub scause : ℕ
scause = 0x142

abbrev pub stval : ℕ
stval = 0x143

abbrev pub sip : ℕ
sip = 0x144

abbrev pub stimecmp : ℕ
stimecmp = 0x14D

abbrev pub satp : ℕ
satp = 0x180

abbrev pub hstatus : ℕ
hstatus = 0x600

abbrev pub hedeleg : ℕ
hedeleg = 0x602

abbrev pub hideleg : ℕ
hideleg = 0x603

abbrev pub hcounteren : ℕ
hcounteren = 0x606

abbrev pub htval : ℕ
htval = 0x643

abbrev pub htinst : ℕ
htinst = 0x64A

abbrev pub vsstatus : ℕ
vsstatus = 0x200

abbrev pub vsie : ℕ
vsie = 0x204

abbrev pub vstvec : ℕ
vstvec = 0x205

abbrev pub vsscratch : ℕ
vsscratch = 0x240

abbrev pub vsepc : ℕ
vsepc = 0x241

abbrev pub vscause : ℕ
vscause = 0x242

abbrev pub vstval : ℕ
vstval = 0x243

abbrev pub vsip : ℕ
vsip = 0x244

abbrev pub vsatp : ℕ
vsatp = 0x280

abbrev pub fflags : ℕ
fflags = 0x001

abbrev pub frm : ℕ
frm = 0x002

abbrev pub fcsr : ℕ
fcsr = 0x003

abbrev pub tselect : ℕ
tselect = 0x7A0

abbrev pub tdata1 : ℕ
tdata1 = 0x7A1

abbrev pub tdata2 : ℕ
tdata2 = 0x7A2

abbrev pub tdata3 : ℕ
tdata3 = 0x7A3

abbrev pub tinfo : ℕ
tinfo = 0x7A4

abbrev pub cycle : ℕ
cycle = 0xC00

abbrev pub time : ℕ
time = 0xC01

abbrev pub instret : ℕ
instret = 0xC02

-- The address that the source writes as a literal: no register stands there.
abbrev pub undefined : ℕ
undefined = 0x3c0
