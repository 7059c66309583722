-- ===== src/Uart.antt =====
-- src/uart.rs: the 16550 UART, its registers, its interrupt line and the panic detector.
pub mod Defs
pub mod Line
pub mod Fifo
pub mod Panic
